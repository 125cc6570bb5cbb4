-- ===== src/Network/Bootstrap/Counts.antt =====
-- The counts of connections that a starting node keeps (bft/communication/mod.rs).
use bafomet.Base.{
  ◌++◌, ℕ, zero, suc, ◌+◌, ◌<◌, ◌≤◌, false, ◌&&◌, if◌then◌else◌, ltb, ◌==◌, Bool-cases, Option,
  some, ok, unwrap, >>=-eq-ok, inl, inr, subst, none, List, [], ◌∷◌, length, length-set, get_elem?,
  get_or, set, ◌≡◌, ◌≢◌, refl, ap, arith,
}
use bafomet.Message.{NodeId}
use bafomet.Replica.Types.{Incoming, connected_tx, connected_rx}
use bafomet.Network.Bootstrap.{Arrival, waits, add_one, count_peer}

-- The node goes on only when every other node is counted twice.
pub waits-false :
    (id k : ℕ) (c : List ℕ) (i : ℕ)
    → waits id k c ≡ false
    → i < length c
    → k + i ≢ id
    → get_or c i 0 ≡ 2
unfolding waits
waits-false id k [] i done below other = absurd (omega arith)
waits-false id k (n ∷ c) zero done below other = ground (arith, done, other)
waits-false id k (n ∷ c) (suc i) done below other =
    waits-false id (suc k) c i (ground (arith, done)) (omega arith) (λ e. other (omega (arith, e)))

-- If every other node is counted twice, it goes on.
pub waits_twice :
    (id k : ℕ) (c : List ℕ)
    → ((i : ℕ) → i < length c → k + i ≢ id → get_or c i 0 ≡ 2)
    → waits id k c ≡ false
unfolding waits
waits_twice id k [] all = refl
waits_twice id k (n ∷ c) all =
    let rest =
      waits_twice id (suc k) c
        (λ i below other. all (suc i) (omega arith) (λ e. other (omega (arith, e)))) in
    let here : (k == id) ≡ false → n ≡ 2 =
      λ other. all zero (omega arith) (λ e. absurd (ground (arith, e, other))) in
    ground (arith, rest, here)

unwrap-ok {ℓ} : {A : Type ℓ} (o : Option A) (a : A) → unwrap o ≡ ok a → o ≡ some a
unwrap-ok none a e = cc
unwrap-ok (some b) a e = let same : b ≡ a = cc in ap some same

-- One more for `id`, if it is no client.
abbrev pub adds : NodeId → NodeId → ℕ → ℕ
adds first_cli id i = if ltb id first_cli && (id == i) then 1 else 0

set-get_or :
    (c : List ℕ) (id v i : ℕ)
    → get_elem? c id ≡ some v
    → get_or (set c id (v + 1)) i 0 ≡ get_or c i 0 + (if id == i then 1 else 0)
set-get_or [] id v i e = cc
set-get_or (n ∷ c) zero v zero e = ground (arith, e)
set-get_or (n ∷ c) zero v (suc i) e = ground arith
set-get_or (n ∷ c) (suc id) v zero e = ground arith
set-get_or (n ∷ c) (suc id) v (suc i) e = ground (arith, set-get_or c id v i e)

get_elem-some : (c : List ℕ) (i : ℕ) → i < length c → (v : ℕ) × (get_elem? c i ≡ some v)
get_elem-some [] i h = absurd (omega arith)
get_elem-some (n ∷ c) zero h = (n, refl)
get_elem-some (n ∷ c) (suc i) h = get_elem-some c i (omega arith)

pub count_peer-adds :
    (first_cli id : NodeId) (c after : List ℕ)
    → count_peer first_cli id c ≡ ok after
    → (length after ≡ length c) × ((i : ℕ) → get_or after i 0 ≡ get_or c i 0 + adds first_cli id i)
unfolding count_peer add_one
count_peer-adds first_cli id c after e = elim (Bool-cases (ltb id first_cli)) [
  | inl replica ↦
      let opened = subst (λ t. (if t then add_one id c else ok c) ≡ ok after) replica e in
      let (v, there, made) = >>=-eq-ok (unwrap (get_elem? c id)) _ opened in
      let same : set c id (v + 1) ≡ after = cc in
      let there : get_elem? c id ≡ some v = unwrap-ok (get_elem? c id) v there in
      subst
        (λ d. (length d ≡ length c) × ((i : ℕ) → get_or d i 0 ≡ get_or c i 0 + adds first_cli id i))
        same (length-set c id (v + 1), λ i. ground (arith, replica, set-get_or c id v i there))
  | inr not_replica ↦
      let opened = subst (λ t. (if t then add_one id c else ok c) ≡ ok after) not_replica e in
      let same : c ≡ after = cc in
      subst
        (λ d. (length d ≡ length c) × ((i : ℕ) → get_or d i 0 ≡ get_or c i 0 + adds first_cli id i))
        same (refl, λ i. rw (not_replica) (omega arith))
]

pub count_peer-ok :
    (first_cli id : NodeId) (c : List ℕ)
    → first_cli ≤ length c
    → (after : List ℕ) × (count_peer first_cli id c ≡ ok after)
unfolding count_peer add_one
count_peer-ok first_cli id c fits = elim (Bool-cases (ltb id first_cli)) [
  | inl replica ↦
      let (v, there) = get_elem-some c id (ground (arith, replica)) in
      (set c id (v + 1), rw (replica, there) refl)
  | inr not_replica ↦ (c, rw (not_replica) refl)
]

module _ {S O P : Type 0} where
  -- What a message counts for node `i`, in the send and in the receive direction.
  unfoldable pub tx_count : NodeId → NodeId → Arrival S O P → ℕ
  tx_count first_cli i (connected_tx id, _) = adds first_cli id i
  tx_count first_cli i _ = 0

  unfoldable pub rx_count : NodeId → NodeId → Arrival S O P → ℕ
  rx_count first_cli i (connected_rx id, _) = adds first_cli id i
  rx_count first_cli i _ = 0

  unfoldable pub rogue_part : Arrival S O P → List (Incoming S O P)
  rogue_part (connected_tx id, _) = []
  rogue_part (connected_rx id, _) = []
  rogue_part (m, _) = m ∷ []

  abbrev pub total : (Arrival S O P → ℕ) → List (Arrival S O P) → ℕ
  total count [] = 0
  total count (m ∷ ms) = count m + total count ms

  abbrev pub rogues : List (Arrival S O P) → List (Incoming S O P)
  rogues [] = []
  rogues (m ∷ ms) = rogue_part m ++ rogues ms
