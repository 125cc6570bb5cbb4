-- ===== src/Network/Bootstrap/Loop.antt =====
-- What the loop of a starting node has done with the messages it has taken
-- (bft/communication/mod.rs).
use bafomet.Base.{
  ℕ, ◌+◌, ◌≤◌, Bool, true, contains_key, none, some, ok, >>=-eq-ok, List, [], ◌∷◌, ◌++◌, length,
  get_or, ◌≡◌, ◌⊎◌, inl, inr, refl, sym, subst, ap, ◌∙◌, arith,
}
use mathlib.Core.List.{append_assoc, append-nil}
use bafomet.Message.{NodeId}
use bafomet.Message.Wire.{Signing}
use bafomet.Replica.Types.{
  Incoming, system, timeout, execution_finished, execution_finished_with_appstate, connected_tx,
  connected_rx, disconnected_tx, disconnected_rx,
}
use bafomet.Network.Types.{Shared, Node}
use bafomet.Network.Send.{peer_map}
use bafomet.Network.Connect.{ConnectTask, handle_connected_tx, handle_connected_rx}
use bafomet.Network.Connect.Peers.{insert_peer-has, handle_connected_rx_keeps}
use bafomet.Network.Bootstrap.{Arrival, count_peer, Booting, task_list, push_rogue, boot_one}
use bafomet.Network.Bootstrap.Counts.{
  count_peer-adds, tx_count, rx_count, rogue_part, total, rogues,
}

module _ {G : Signing} {S O P : Type 0} where
  abbrev pub has_peer : NodeId → Booting G S O P → Bool
  has_peer i b = contains_key i (peer_map b.node.peer_tx)

  -- Between two states of the loop the messages `used` were taken.
  abbrev pub Took : NodeId → Booting G S O P → List (Arrival S O P) → Booting G S O P → Type 0
  Took first_cli b used after =
      (after.node.id ≡ b.node.id)
      × (length after.c ≡ length b.c)
      × ((i : ℕ)
          → get_or after.c i 0
            ≡ get_or b.c i 0
              + (total (tx_count first_cli i) used + total (rx_count first_cli i) used))
      × ((i : ℕ)
          → (has_peer i b ≡ true) ⊎ (1 ≤ total (tx_count first_cli i) used)
          → has_peer i after ≡ true)
      × (after.rogue ≡ b.rogue ++ rogues used)

  pub taken_none : (first_cli : NodeId) (b : Booting G S O P) → Took first_cli b [] b
  taken_none first_cli b = (
    refl,
    refl,
    λ i. omega arith,
    λ i h. elim h [ inl has ↦ has | inr few ↦ absurd (omega (arith, few)) ],
    sym (append-nil b.rogue),
  )

  had_or_got :
      (first_cli : NodeId) (b middle : Booting G S O P) (m : Arrival S O P)
      (used : List (Arrival S O P)) (i : NodeId)
      → ((has_peer i b ≡ true) ⊎ (1 ≤ total (tx_count first_cli i) (m ∷ []))
          → has_peer i middle ≡ true)
      → (has_peer i b ≡ true) ⊎ (1 ≤ total (tx_count first_cli i) (m ∷ used))
      → (has_peer i middle ≡ true) ⊎ (1 ≤ total (tx_count first_cli i) used)
  had_or_got first_cli b middle m used i step (inl had) = inl (step (inl had))
  had_or_got first_cli b middle m used i step (inr got) =
      let now_or_later : (1 ≤ tx_count first_cli i m) ⊎ (1 ≤ total (tx_count first_cli i) used) =
        omega (arith, got) in
      elim now_or_later [ inl now ↦ inl (step (inr (omega (arith, now)))) | inr later ↦ inr later ]

  pub taken_then :
      (first_cli : NodeId) (b middle after : Booting G S O P) (m : Arrival S O P)
      (used : List (Arrival S O P))
      → Took first_cli b (m ∷ []) middle
      → Took first_cli middle used after
      → Took first_cli b (m ∷ used) after
  taken_then first_cli b middle after m used (id, len, counts, peers, rogue)
        (id', len', counts', peers', rogue') =
      (
        id' ∙ id,
        len' ∙ len,
        λ i. omega (arith, counts i, counts' i),
        λ i h. peers' i (had_or_got first_cli b middle m used i (peers i) h),
        rogue'
            ∙ ap (λ r. r ++ rogues used)
                (rogue ∙ ap (λ r. b.rogue ++ r) (append-nil (rogue_part m)))
            ∙ append_assoc b.rogue (rogue_part m) (rogues used),
      )

  connected_tx-Took :
      (first_cli : NodeId) (b : Booting G S O P) (id : NodeId) (sock : Shared) (c : List ℕ)
      → count_peer first_cli id b.c ≡ ok c
      → Took first_cli b
          ((connected_tx id, sock) ∷ [])
          (record b { node = handle_connected_tx b.node id sock; c = c })
  unfolding tx_count rx_count rogue_part handle_connected_tx
  connected_tx-Took first_cli b id sock c e =
      let (len, counts) = count_peer-adds first_cli id b.c c e in
      (
        refl,
        len,
        λ i. omega (arith, counts i),
        λ i h.
            insert_peer-has id i sock b.node.peer_tx
              (elim h [ inl has ↦ inl has | inr got ↦ inr (ground (arith, got)) ]),
        sym (append-nil b.rogue),
      )

  connected_rx-Took :
      (first_cli : NodeId) (b : Booting G S O P) (id : NodeId) (sock : Shared) (c : List ℕ)
      (node : Node G) (tasks : List ConnectTask)
      → count_peer first_cli id b.c ≡ ok c
      → (node.id ≡ b.node.id)
        × (node.peer_tx ≡ b.node.peer_tx)
        × (node.peer_addrs ≡ b.node.peer_addrs)
      → Took first_cli b
          ((connected_rx id, sock) ∷ [])
          (record b { node = node; c = c; tasks = tasks })
  unfolding tx_count rx_count rogue_part
  connected_rx-Took first_cli b id sock c node tasks e (same_id, same_tx, _) =
      let (len, counts) = count_peer-adds first_cli id b.c c e in
      (
        same_id,
        len,
        λ i. omega (arith, counts i),
        λ i h. elim h [
          | inl has ↦ rw (same_tx) has
          | inr none_got ↦ absurd (omega (arith, none_got))
        ],
        sym (append-nil b.rogue),
      )

  push_rogue-Took :
      (first_cli : NodeId) (b : Booting G S O P) (m : Incoming S O P) (sock : Shared)
      → ((i : ℕ) → tx_count {S = S} {O = O} {P = P} first_cli i (m, sock) ≡ 0)
      → ((i : ℕ) → rx_count {S = S} {O = O} {P = P} first_cli i (m, sock) ≡ 0)
      → rogue_part {S = S} {O = O} {P = P} (m, sock) ≡ m ∷ []
      → Took first_cli b ((m, sock) ∷ []) (push_rogue b m)
  unfolding push_rogue
  push_rogue-Took first_cli b m sock no_tx no_rx part = (
    refl,
    refl,
    λ i. omega (arith, no_tx i, no_rx i),
    λ i h. elim h [ inl has ↦ has | inr got ↦ absurd (omega (arith, got, no_tx i)) ],
    ap (λ r. b.rogue ++ r) (sym (append-nil (m ∷ [])) ∙ ap (λ r. r ++ []) (sym part)),
  )

  rogue_lem :
      (first_cli : NodeId) (b after : Booting G S O P) (m : Incoming S O P) (sock : Shared)
      → ok (push_rogue b m) ≡ ok after
      → ((i : ℕ) → tx_count {S = S} {O = O} {P = P} first_cli i (m, sock) ≡ 0)
      → ((i : ℕ) → rx_count {S = S} {O = O} {P = P} first_cli i (m, sock) ≡ 0)
      → rogue_part {S = S} {O = O} {P = P} (m, sock) ≡ m ∷ []
      → Took first_cli b ((m, sock) ∷ []) after
  rogue_lem first_cli b after m sock e no_tx no_rx part =
      let same : push_rogue b m ≡ after = cc in
      subst (Took first_cli b ((m, sock) ∷ [])) same
        (push_rogue-Took first_cli b m sock no_tx no_rx part)

  pub boot_one-Took :
      (first_cli : NodeId) (b after : Booting G S O P) (m : Arrival S O P)
      → boot_one first_cli b m ≡ ok after
      → Took first_cli b (m ∷ []) after
  unfolding boot_one tx_count rx_count rogue_part
  boot_one-Took first_cli b after (connected_tx id, sock) e =
      let (c, counted, made) = >>=-eq-ok (count_peer first_cli id b.c) _ e in
      let next : Booting G S O P = record b { node = handle_connected_tx b.node id sock; c = c } in
      let same : next ≡ after = cc in
      subst (Took first_cli b ((connected_tx id, sock) ∷ [])) same
        (connected_tx-Took first_cli b id sock c counted)
  boot_one-Took first_cli b after (connected_rx id, sock) e =
      let ((task, node), handled, rest) = >>=-eq-ok (handle_connected_rx b.node id) _ e in
      let (c, counted, made) = >>=-eq-ok (count_peer first_cli id b.c) _ rest in
      let next : Booting G S O P = record b {
        node = node;
        c = c;
        tasks = b.tasks ++ task_list task;
      } in
      let same : next ≡ after = cc in
      subst (Took first_cli b ((connected_rx id, sock) ∷ [])) same (
        connected_rx-Took first_cli b id sock c node (b.tasks ++ task_list task) counted
          (handle_connected_rx_keeps b.node node id task handled))
  boot_one-Took first_cli b after (disconnected_tx i, sock) e = cc
  boot_one-Took first_cli b after (disconnected_rx (some i), sock) e = cc
  boot_one-Took first_cli b after (disconnected_rx none, sock) e = cc
  boot_one-Took first_cli b after (system h m, sock) e =
      rogue_lem first_cli b after _ sock e (λ i. refl) (λ i. refl) refl
  boot_one-Took first_cli b after (timeout k, sock) e =
      rogue_lem first_cli b after _ sock e (λ i. refl) (λ i. refl) refl
  boot_one-Took first_cli b after (execution_finished replies, sock) e =
      rogue_lem first_cli b after _ sock e (λ i. refl) (λ i. refl) refl
  boot_one-Took first_cli b after (execution_finished_with_appstate replies state, sock) e =
      rogue_lem first_cli b after _ sock e (λ i. refl) (λ i. refl) refl
