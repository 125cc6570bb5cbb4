-- ===== src/Network/Bootstrap/Finishes.antt =====
-- When a starting node gets ready (bft/communication/mod.rs).
use bafomet.Base.{
  ℕ, ◌+◌, ◌<◌, ◌≤◌, true, false, Bool-cases, some, ok, List, [], ◌∷◌, ◌++◌, length,
  length-replicate, replicate, All, HashMap, get, ◌≡◌, ◌≢◌, ◌⊎◌, inl, inr, refl, sym, subst, arith,
}
use bafomet.Message.{NodeId}
use bafomet.Message.Wire.{Signing}
use bafomet.Replica.Types.{
  system, timeout, execution_finished, execution_finished_with_appstate, connected_tx, connected_rx,
  disconnected_tx, disconnected_rx,
}
use bafomet.Prng.{State}
use bafomet.Network.Types.{Address, NodeConfig}
use bafomet.Network.Connect.{handle_connected_tx}
use bafomet.Network.Connect.Peers.{handle_connected_rx-ok, handle_connected_rx_keeps}
use bafomet.Network.Bootstrap.{
  Arrival, waits, Booting, ready, task_list, push_rogue, boot_one, boot, new_node,
}
use bafomet.Network.Bootstrap.Counts.{tx_count, rx_count, total, waits_twice, count_peer-ok}
use bafomet.Network.Bootstrap.Loop.{Took, taken_none, taken_then, boot_one-Took}
use bafomet.Network.Bootstrap.Connected.{replicate-get_or}

-- A message that does not stop the loop: no connection is lost, and the address of each node that
-- connects is known.
unfoldable pub Fine : {S O P : Type 0} → HashMap Address → Arrival S O P → Type 0
Fine addrs (connected_rx id, _) = (addr : Address) × (get id addrs ≡ some addr)
Fine addrs (disconnected_tx _, _) = ⊥
Fine addrs (disconnected_rx _, _) = ⊥
Fine addrs _ = Unit

module _ {G : Signing} {S O P : Type 0} where
  -- The body of the loop succeeds and keeps the addresses.
  abbrev GoesOn : NodeId → Booting G S O P → Arrival S O P → Type 0
  GoesOn first_cli b m =
      (after : Booting G S O P) × (boot_one first_cli b m ≡ ok after)
      × (after.node.peer_addrs ≡ b.node.peer_addrs)

  boot_one-GoesOn :
      (first_cli : NodeId) (b : Booting G S O P) (m : Arrival S O P)
      → first_cli ≤ length b.c
      → Fine b.node.peer_addrs m
      → GoesOn first_cli b m
  unfolding boot_one Fine push_rogue handle_connected_tx
  boot_one-GoesOn first_cli b (connected_tx id, sock) fits fine =
      let (c, counted) = count_peer-ok first_cli id b.c fits in
      let after : Booting G S O P = record b { node = handle_connected_tx b.node id sock; c = c } in
      (after, rw (counted) refl, refl)
  boot_one-GoesOn first_cli b (connected_rx id, sock) fits (addr, known) =
      let (task, node, handled) = handle_connected_rx-ok b.node id addr known in
      let (c, counted) = count_peer-ok first_cli id b.c fits in
      let after : Booting G S O P = record b {
        node = node;
        c = c;
        tasks = b.tasks ++ task_list task;
      } in
      let kept = handle_connected_rx_keeps b.node node id task handled in
      (after, rw (handled, counted) refl, kept.2)
  boot_one-GoesOn first_cli b (disconnected_tx i, sock) fits fine = absurd fine
  boot_one-GoesOn first_cli b (disconnected_rx i, sock) fits fine = absurd fine
  boot_one-GoesOn first_cli b (system h m, sock) fits fine = (push_rogue b _, refl, refl)
  boot_one-GoesOn first_cli b (timeout k, sock) fits fine = (push_rogue b _, refl, refl)
  boot_one-GoesOn first_cli b (execution_finished replies, sock) fits fine =
      (push_rogue b _, refl, refl)
  boot_one-GoesOn first_cli b (execution_finished_with_appstate replies state, sock) fits fine =
      (push_rogue b _, refl, refl)

  -- The loop gets ready, or it has taken every message and waits.
  abbrev ReadyOrWaiting : NodeId → List (Arrival S O P) → Booting G S O P → Type 0
  ReadyOrWaiting first_cli ms b =
      ((after : Booting G S O P) × (rest : List (Arrival S O P)) × (boot first_cli ms b
          ≡ ok (ready after rest)))
      ⊎ ((after : Booting G S O P) × (waits after.node.id 0 after.c ≡ true)
          × Took first_cli b ms after)

  boot_cases :
      (first_cli : NodeId) (ms : List (Arrival S O P)) (b : Booting G S O P)
      → first_cli ≤ length b.c
      → All (Fine b.node.peer_addrs) ms
      → ReadyOrWaiting first_cli ms b
  unfolding boot
  boot_cases first_cli [] b fits fine = elim (Bool-cases (waits b.node.id 0 b.c)) [
    | inl wait ↦ inr (b, wait, taken_none first_cli b)
    | inr go ↦ inl (b, [], rw (go) refl)
  ]
  boot_cases first_cli (m ∷ ms) b fits (here, later) = elim (Bool-cases (waits b.node.id 0 b.c)) [
    | inl wait ↦
        let (middle, one, same_addrs) = boot_one-GoesOn first_cli b m fits here in
        let took = boot_one-Took first_cli b middle m one in
        elim (boot_cases first_cli ms middle (omega (arith, fits, took.1))
          (subst (λ addrs. All (Fine addrs) ms) (sym same_addrs) later)) [
            | inl (after, rest, run) ↦ inl (after, rest, rw (wait, one) run)
            | inr (after, waits_still, took_rest) ↦
                inr (after, waits_still, taken_then first_cli b middle after m ms took took_rest)
          ]
    | inr go ↦ inl (b, m ∷ ms, rw (go) refl)
  ]

  -- In whatever order they come in: when the channel holds two connections with each other node
  -- below n, counting both directions, no message that a connection is lost, and connections only
  -- from nodes whose address is known, and no more than n ids are of replicas, the loop of the new
  -- node ends and the node is ready.
  pub boot_ready :
      (cfg : NodeConfig G) (rng : State) (ms : List (Arrival S O P))
      → cfg.first_cli ≤ cfg.n
      → All (Fine cfg.addrs) ms
      → ((i : ℕ)
          → i < cfg.n
          → i ≢ cfg.id
          → total (tx_count cfg.first_cli i) ms + total (rx_count cfg.first_cli i) ms ≡ 2)
      → (after : Booting G S O P) × (rest : List (Arrival S O P)) × (boot cfg.first_cli ms
            (new_node cfg rng)
          ≡ ok (ready after rest))
  boot_ready cfg rng ms fits fine twice =
      let enough : cfg.first_cli ≤ length {A = ℕ} (replicate cfg.n 0) =
        omega (arith, fits, length-replicate {A = ℕ} cfg.n 0) in
      elim (boot_cases cfg.first_cli ms (new_node cfg rng) enough fine) [
        | inl finished ↦ finished
        | inr (after, wait, (id, len, counts, _, _)) ↦
            let go : waits after.node.id 0 after.c ≡ false =
              waits_twice after.node.id 0 after.c (λ i below other. omega (
                arith,
                counts i,
                replicate-get_or cfg.n i,
                twice i (omega (arith, below, len, length-replicate {A = ℕ} cfg.n 0))
                    (λ same. other (omega (arith, same, id))),
              )) in
            absurd (cc (wait, go))
      ]
