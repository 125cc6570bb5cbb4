-- ===== src/Network/Send/Arrives/Targets.antt =====
-- Which messages a call of `send` or `broadcast` leads to (bft/communication/mod.rs).
use bafomet.Base.{
  Bool, true, false, not, if◌then◌else◌, ◌==◌, Bool-cases, Option-cases, Option, none, some, ok,
  panic, unwrap, ◌>>=◌, List, [], ◌∷◌, ◌++◌, map, select, All, HashMap, get, ◌≡◌, ◌⊎◌, inl, inr,
  refl, sym, ap, ◌∙◌, arith,
}
use mathlib.Core.List.{append_assoc, append-nil}
use bafomet.Message.{NodeId}
use bafomet.Message.Wire.{Signing}
use bafomet.Network.Types.{Shared, NodeShared}
use bafomet.Network.Send.{SendTo, me, peers, to_peer, create_send_tos}

-- Two lists that agree, one by one.
abbrev pub Pairs {ℓ κ} : {A : Type ℓ} {B : Type κ} → (A → B → Type 0) → List A → List B → Type 0
Pairs R [] [] = Unit
Pairs R [] (y ∷ ys) = ⊥
Pairs R (x ∷ xs) [] = ⊥
Pairs R (x ∷ xs) (y ∷ ys) = R x y × Pairs R xs ys

pub Pairs-map {ℓ κ ρ} :
    {A : Type ℓ} {B : Type κ} {C : Type ρ} (R : A → B → Type 0) (Q : A → C → Type 0) (f : B → C)
    → ((x : A) (y : B) → R x y → Q x (f y))
    → (xs : List A) (ys : List B) → Pairs R xs ys
    → Pairs Q xs (map f ys)
Pairs-map R Q f each [] [] h = h
Pairs-map R Q f each (x ∷ xs) (y ∷ ys) (h, hs) = (each x y h, Pairs-map R Q f each xs ys hs)
Pairs-map R Q f each [] (y ∷ ys) h = absurd h
Pairs-map R Q f each (x ∷ xs) [] h = absurd h

-- Whom a broadcast is for: the node itself, once, if it is among the targets, then each other
-- target as often as it is listed.
unfoldable pub is_target : NodeId → List NodeId → Bool
is_target id [] = false
is_target id (t ∷ targets) = if t == id then true else is_target id targets

abbrev pub others_of : NodeId → List NodeId → List NodeId
others_of id targets = select (λ t. not (t == id)) targets

unfoldable pub addressees : NodeId → List NodeId → List NodeId
unfolding is_target
addressees id targets =
    if is_target id targets then id ∷ others_of id targets else others_of id targets

-- Each target is the node itself or is connected.
abbrev pub Reachable : NodeId → HashMap Shared → List NodeId → Type 0
Reachable id m targets = All (λ t. (t ≡ id) ⊎ ((lock : Shared) × (get t m ≡ some lock))) targets

module _ (G : Signing) (id : NodeId) (shared : NodeShared G) (m : HashMap Shared) where
  -- The handle for a peer, with the socket of that peer.
  abbrev pub HandleOf : NodeId → SendTo G → Type 0
  HandleOf t s = (lock : Shared) × (get t m ≡ some lock) × (s ≡ peers id t shared lock)

  abbrev pub my_handle : Bool → Option (SendTo G) → Option (SendTo G)
  my_handle listed mine = if listed then some (me id shared) else mine

  my_handle_again :
      (b : Bool) (mine : Option (SendTo G))
      → my_handle b (my_handle true mine) ≡ my_handle true mine
  my_handle_again true mine = refl
  my_handle_again false mine = refl

  pub locked :
      (t : NodeId)
      → (t == id) ≡ false
      → (t ≡ id) ⊎ ((lock : Shared) × (get t m ≡ some lock))
      → (lock : Shared) × (get t m ≡ some lock)
  locked t e (inl same) = absurd (ground (arith, e, same))
  locked t e (inr there) = there

  pub create_send_tos-Pairs :
      (targets : List NodeId) (mine : Option (SendTo G)) (others : List (SendTo G))
      → Reachable id m targets
      → (new : List (SendTo G)) × (create_send_tos G id shared m targets mine others
          ≡ ok (my_handle (is_target id targets) mine, others ++ new))
        × Pairs HandleOf (others_of id targets) new
  unfolding create_send_tos is_target to_peer
  create_send_tos-Pairs [] mine others h =
      ([], ap (λ l. ok (mine, l)) (sym (append-nil others)), tt)
  create_send_tos-Pairs (t ∷ targets) mine others (h, hs) = elim (Bool-cases (t == id)) [
    | inl e ↦
        let (new, made, pairs) = create_send_tos-Pairs targets (some (me id shared)) others hs in
        rw (e) (
          new,
          made
              ∙ ap (λ (o : Option (SendTo G)). ok (o, others ++ new))
                  (my_handle_again (is_target id targets) mine),
          pairs,
        )
    | inr e ↦
        let (lock, there) = locked t e h in
        let s = peers id t shared lock in
        let (new, made, pairs) = create_send_tos-Pairs targets mine (others ++ (s ∷ [])) hs in
        rw (e) (
          s ∷ new,
          ap
                (λ o.
                  unwrap o
                  >>= (λ k. ok (peers id t shared k))
                  >>= (λ r. create_send_tos G id shared m targets mine (others ++ (r ∷ []))))
                there
              ∙ made
              ∙ ap (λ xs. ok (my_handle (is_target id targets) mine, xs))
                  (append_assoc others (s ∷ []) new),
          ((lock, there, refl), pairs),
        )
  ]

  -- One other target without a connection is enough for the loop to panic.
  pub create_send_tos_missing :
      (before after : List NodeId) (t : NodeId) (mine : Option (SendTo G))
      (others : List (SendTo G))
      → (t == id) ≡ false
      → get t m ≡ none
      → create_send_tos G id shared m (before ++ (t ∷ after)) mine others ≡ panic
  unfolding create_send_tos to_peer
  create_send_tos_missing [] after t mine others e missing = rw (e, missing) refl
  create_send_tos_missing (s ∷ before) after t mine others e missing = elim (Bool-cases (s == id)) [
    | inl own ↦
        rw (own) (create_send_tos_missing before after t (some (me id shared)) others e missing)
    | inr other ↦ elim (Option-cases (get s m)) [
      | inl none_there ↦ rw (other, none_there) refl
      | inr (lock, there) ↦
          rw (other, there)
            (create_send_tos_missing before after t mine (others ++ (peers id s shared lock ∷ [])) e
              missing)
    ]
  ]
