-- ===== src/Network/Bootstrap/Connected.antt =====
-- What a node that has started is connected to (bft/communication/mod.rs).
use bafomet.Base.{
  ℕ, zero, suc, ◌+◌, ◌*◌, ◌<◌, ◌≤◌, Bool, true, false, ◌&&◌, if◌then◌else◌, leb, ltb, Bool-cases,
  Result, Error, ok, err, unwrap, ◌>>=◌, >>=-eq-ok, List, [], ◌∷◌, ◌++◌, length, length-replicate,
  replicate, get_or, get, ◌≡◌, ◌≢◌, inl, inr, refl, subst, ap, ◌∙◌, arith,
}
use bafomet.Message.{NodeId}
use bafomet.Message.Wire.{Signing}
use bafomet.Prng.{State}
use bafomet.Network.Types.{Address, NodeConfig}
use bafomet.Network.Connect.{ConnectTask, tx_side_connect}
use bafomet.Network.Bootstrap.{
  Arrival, waits, Booting, Booted, ready, waiting, boot_one, boot, new_node, start, bootstrap,
}
use bafomet.Network.Bootstrap.Counts.{tx_count, rx_count, total, rogues, waits-false}
use bafomet.Network.Bootstrap.Loop.{has_peer, Took, taken_none, taken_then, boot_one-Took}

module _ {G : Signing} {S O P : Type 0} where
  -- What is said of the loop when it has ended.
  abbrev pub Ends :
      NodeId
      → List (Arrival S O P)
      → List (Arrival S O P)
      → Booting G S O P
      → Booting G S O P
      → Type 0
  Ends first_cli ms rest b after =
      (used : List (Arrival S O P)) × (ms ≡ used ++ rest)
      × (waits after.node.id 0 after.c ≡ false)
      × Took first_cli b used after

  goes-Ends :
      (first_cli : NodeId) (ms rest : List (Arrival S O P)) (b after : Booting G S O P)
      → waits b.node.id 0 b.c ≡ false
      → ◌≡◌ {A = Result (Booted G S O P)} (ok (ready b ms)) (ok (ready after rest))
      → Ends first_cli ms rest b after
  goes-Ends first_cli ms rest b after go e =
      let same : b ≡ after = cc in
      let left : ms ≡ rest = cc in
      subst (λ a. Ends first_cli ms rest b a) same ([], left, go, taken_none first_cli b)

  pub boot-Ends :
      (first_cli : NodeId) (ms rest : List (Arrival S O P)) (b after : Booting G S O P)
      → boot first_cli ms b ≡ ok (ready after rest)
      → Ends first_cli ms rest b after
  unfolding boot
  boot-Ends first_cli [] rest b after e = elim (Bool-cases (waits b.node.id 0 b.c)) [
    | inl wait ↦
        let opened =
          subst
            (λ t.
              ◌≡◌ {A = Result (Booted G S O P)} (ok (if t then waiting b else ready b []))
                (ok (ready after rest)))
            wait e in
        absurd (cc opened)
    | inr go ↦
        let opened =
          subst
            (λ t.
              ◌≡◌ {A = Result (Booted G S O P)} (ok (if t then waiting b else ready b []))
                (ok (ready after rest)))
            go e in
        goes-Ends first_cli [] rest b after go opened
  ]
  boot-Ends first_cli (m ∷ ms) rest b after e =
      let next : Result (Booted G S O P) = boot_one first_cli b m >>= (λ b. boot first_cli ms b) in
      elim (Bool-cases (waits b.node.id 0 b.c)) [
        | inl wait ↦
            let opened =
              subst (λ t. (if t then next else ok (ready b (m ∷ ms))) ≡ ok (ready after rest)) wait
                e in
            let (middle, one, later) = >>=-eq-ok (boot_one first_cli b m) _ opened in
            let (used, split, go, took) = boot-Ends first_cli ms rest middle after later in
            (
              m ∷ used,
              ap (λ l. m ∷ l) split,
              go,
              taken_then first_cli b middle after m used (boot_one-Took first_cli b middle m one)
                  took,
            )
        | inr go ↦
            let opened =
              subst (λ t. (if t then next else ok (ready b (m ∷ ms))) ≡ ok (ready after rest)) go
                e in
            goes-Ends first_cli (m ∷ ms) rest b after go opened
      ]

pub replicate-get_or : (n i : ℕ) → get_or {A = ℕ} (replicate n 0) i 0 ≡ 0
replicate-get_or zero i = refl
replicate-get_or (suc n) zero = refl
replicate-get_or (suc n) (suc i) = replicate-get_or n i

if_err {ℓ} :
    {A : Type ℓ} (b : Bool) (e : Error) (r : Result A) (a : A)
    → (if b then err e else r) ≡ ok a
    → r ≡ ok a
if_err true e r a h = cc
if_err false e r a h = h

module _ {G : Signing} {S O P : Type 0} where
  -- What the loop ends with, from the counts of a new node.
  start-Ends :
      (cfg : NodeConfig G) (seed : State) (arrivals rest : List (Arrival S O P))
      (tasks : List ConnectTask) (after : Booting G S O P)
      → start cfg seed arrivals ≡ ok (tasks, ready after rest)
      → (rng : State) × Ends cfg.first_cli arrivals rest (new_node cfg rng) after
  unfolding start
  start-Ends cfg seed arrivals rest tasks after e =
      let ((tasks', rng), _, looped) =
        >>=-eq-ok (tx_side_connect cfg.n cfg.id cfg.addrs seed) _ e in
      let (booted, ran, made) =
        >>=-eq-ok (boot cfg.first_cli arrivals (new_node cfg rng)) _ looped in
      let same : booted ≡ ready after rest = cc in
      (rng, boot-Ends cfg.first_cli arrivals rest (new_node cfg rng) after (ran ∙ ap ok same))

  -- A node that `bootstrap` makes ready has taken the first messages of its channel and left the
  -- others. Each other node with an id below n, none of them a client, has made two connections
  -- with it, counting both directions, and if no more than one of them is for receiving, the node
  -- can send to it. The messages that are no connections are handed on, all of them and in order.
  pub bootstrap-IsConnected :
      (cfg : NodeConfig G) (bind : Address → Result {0} Unit) (seed : State)
      (arrivals rest : List (Arrival S O P)) (tasks : List ConnectTask) (after : Booting G S O P)
      → bootstrap cfg bind seed arrivals ≡ ok (tasks, ready after rest)
      → (used : List (Arrival S O P)) × (arrivals ≡ used ++ rest)
        × (after.rogue ≡ rogues used)
        × ((i : ℕ)
            → i < cfg.n
            → i ≢ cfg.id
            → (total (tx_count cfg.first_cli i) used + total (rx_count cfg.first_cli i) used ≡ 2)
              × (total (rx_count cfg.first_cli i) used ≤ 1 → has_peer i after ≡ true))
  unfolding bootstrap
  bootstrap-IsConnected cfg bind seed arrivals rest tasks after e =
      let few = if_err (ltb cfg.n (3 * cfg.f + 1)) _ _ _ e in
      let fits = if_err (leb cfg.n cfg.id && ltb cfg.id cfg.first_cli) _ _ _ few in
      let (_, _, started) = >>=-eq-ok (unwrap (get cfg.id cfg.addrs) >>= bind) _ fits in
      let (_, (used, split, done, (same_id, len, counts, peers, rogue))) =
        start-Ends cfg seed arrivals rest tasks after started in
      (
        used,
        split,
        rogue,
        λ i below other.
            let counted : i < length after.c =
              omega (arith, below, len, length-replicate {A = ℕ} cfg.n 0) in
            let two =
              waits-false after.node.id 0 after.c i done counted
                (λ same. other (omega (arith, same, same_id))) in
            let zero_first = replicate-get_or cfg.n i in
            (
              omega (arith, two, counts i, zero_first),
              λ one. peers i (inr (omega (arith, two, counts i, zero_first, one))),
            ),
      )
