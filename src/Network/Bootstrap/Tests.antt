-- ===== src/Network/Bootstrap/Tests.antt =====
-- Node 0 as it starts, on concrete messages.
use bafomet.Base.{
  ℕ, zero, suc, ◌+◌, ◌<◌, ◌≤◌, ◌^◌, Bool, true, false, if◌then◌else◌, ltb, leb, ◌==◌, Option, none,
  some, Result, ok, panic, List, [], ◌∷◌, ◌++◌, length, map, get, All, ◌≡◌, ◌≢◌, ◌⊎◌, inl, inr,
  refl, sym, ap, arith,
}
use bafomet.Message.Samples.{keyed}
use bafomet.Prng.{State, next_state}
use bafomet.Replica.Types.{timeout, client_requests, connected_tx, connected_rx}
use bafomet.Network.Types.{server}
use bafomet.Network.Connect.{ConnectTask, Dialed, dialed, not_dialed, greet, tx_side_connect_task}
use bafomet.Network.Bootstrap.{Arrival, Booting, ready, waiting, boot, new_node, bootstrap}
use bafomet.Network.Bootstrap.Loop.{has_peer}
use bafomet.Network.Bootstrap.Connected.{bootstrap-IsConnected}
use bafomet.Network.Bootstrap.Finishes.{Fine, boot_ready}
use bafomet.Network.Bootstrap.Counts.{tx_count, rx_count, total, rogues}
use bafomet.Network.Samples.{seed, addresses, node, config}

-- Each of the replicas 1 to 3 connects in both directions, and a timer ends meanwhile.
abbrev arrivals : List (Arrival ℕ ℕ ℕ)
arrivals =
    (connected_rx 2, 0)
    ∷ (connected_tx 1, 7)
    ∷ (timeout (client_requests 0), 0)
    ∷ (connected_rx 3, 0)
    ∷ (connected_tx 2, 8)
    ∷ (connected_tx 3, 9)
    ∷ (connected_rx 1, 0)
    ∷ []

-- What node 0 is with these connections.
abbrev started : State → Booting keyed ℕ ℕ ℕ
started rng = record {
  node = record node { rng = rng; peer_tx = server ((1, 7) ∷ (2, 8) ∷ (3, 9) ∷ []) };
  c = 0 ∷ 2 ∷ 2 ∷ 2 ∷ [];
  rogue = timeout (client_requests 0) ∷ [];
  tasks = [];
}

arrivals-Fine : All (Fine addresses) arrivals
unfolding Fine get
arrivals-Fine = ((_, refl), (tt, (tt, ((_, refl), (tt, (tt, ((_, refl), tt)))))))

each_twice :
    (i : ℕ) → i < 4 → i ≢ 0 → total (tx_count 4 i) arrivals + total (rx_count 4 i) arrivals ≡ 2
unfolding tx_count rx_count
each_twice zero below other = absurd (other refl)
each_twice (suc zero) below other = refl
each_twice (suc (suc zero)) below other = refl
each_twice (suc (suc (suc zero))) below other = refl
each_twice (suc (suc (suc (suc i)))) below other = absurd (omega arith)

boot_ready_example :
    (after : Booting keyed ℕ ℕ ℕ) × (rest : List (Arrival ℕ ℕ ℕ)) × (boot 4 arrivals
        (new_node config seed)
      ≡ ok (ready after rest))
boot_ready_example = boot_ready config seed arrivals (omega arith) arrivals-Fine each_twice

abbrev three_steps : State
three_steps = (next_state (next_state (next_state seed).1).1).1

abbrev three_tasks : List ConnectTask
three_tasks =
    record { peer_id = 1; nonce = 11520; addr = (11, "b") }
    ∷ record { peer_id = 2; nonce = 0; addr = (12, "c") }
    ∷ record { peer_id = 3; nonce = 1509978240; addr = (13, "d") }
    ∷ []

bootstraps :
    bootstrap config (λ addr. ok tt) seed arrivals
    ≡ ok (three_tasks, ready (started three_steps) [])
unfolding bootstrap get bafomet.Network.Connect.tx_side_connect
    bafomet.Network.Connect.handle_connected_rx bafomet.Network.Connect.handle_connected_tx
    next_state bafomet.Base.insert
bootstraps = refl

bootstrap-IsConnected_example :
    (used : List (Arrival ℕ ℕ ℕ)) × (arrivals ≡ used ++ [])
    × (timeout (client_requests 0) ∷ [] ≡ rogues used)
    × ((i : ℕ)
        → i < 4
        → i ≢ 0
        → (total (tx_count 4 i) used + total (rx_count 4 i) used ≡ 2)
          × (total (rx_count 4 i) used ≤ 1 → has_peer i (started three_steps) ≡ true))
bootstrap-IsConnected_example =
    bootstrap-IsConnected config (λ addr. ok tt) seed arrivals [] three_tasks (started three_steps)
      bootstraps

abbrev two_receivers_end : Booting keyed ℕ ℕ ℕ
two_receivers_end = record {
  node = record node { peer_tx = server [] };
  c = 0 ∷ 2 ∷ 2 ∷ 2 ∷ [];
  rogue = [];
  tasks = [];
}

-- Two connections for receiving from each replica make the node ready, and it can send to none.
two_receivers :
    boot 4
      ((connected_rx 1, 0)
        ∷ (connected_rx 1, 0)
        ∷ (connected_rx 2, 0)
        ∷ (connected_rx 2, 0)
        ∷ (connected_rx 3, 0)
        ∷ (connected_rx 3, 0)
        ∷ [])
      (new_node config seed)
    ≡ ok (ready two_receivers_end [])
unfolding boot bafomet.Network.Connect.handle_connected_rx
two_receivers = refl

abbrev one_too_many_end : Booting keyed ℕ ℕ ℕ
one_too_many_end = record (started seed) { c = 0 ∷ 3 ∷ 2 ∷ 2 ∷ []; rogue = [] }

-- With a third connection of replica 1 before the others are counted, the node waits for ever.
one_too_many :
    boot 4
      ((connected_rx 1, 0)
        ∷ (connected_rx 1, 0)
        ∷ (connected_tx 1, 7)
        ∷ (connected_rx 2, 0)
        ∷ (connected_tx 2, 8)
        ∷ (connected_rx 3, 0)
        ∷ (connected_tx 3, 9)
        ∷ [])
      (new_node config seed)
    ≡ ok (waiting one_too_many_end)
unfolding boot bafomet.Network.Connect.handle_connected_rx
    bafomet.Network.Connect.handle_connected_tx bafomet.Base.insert
one_too_many = refl
