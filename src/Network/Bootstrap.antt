-- ===== src/Network/Bootstrap.antt =====
-- How a node starts (bft/communication/mod.rs): the checks of `bootstrap`, and its loop over the
-- messages that come in on the channel of the node.
pub mod Counts
pub mod Loop
pub mod Connected
pub mod Finishes
mod Tests
use bafomet.Base.{
  ℕ, zero, suc, ◌+◌, ◌*◌, Bool, true, false, not, ◌&&◌, ◌||◌, if◌then◌else◌, leb, ltb, ◌==◌, Option,
  none, some, Result, ok, err, panic, wrapped, communication, unwrap, ◌>>=◌, List, [], ◌∷◌, ◌++◌,
  replicate, get_elem?, set, HashMap, get,
}
use bafomet.Message.{NodeId}
use bafomet.Message.Wire.{Signing}
use bafomet.Replica.Types.{
  Incoming, system, timeout, execution_finished, execution_finished_with_appstate, connected_tx,
  connected_rx, disconnected_tx, disconnected_rx,
}
use bafomet.Prng.{State}
use bafomet.Network.Types.{Shared, PeerTx, client, server, Address, Node, NodeConfig}
use bafomet.Network.Connect.{ConnectTask, handle_connected_tx, handle_connected_rx, tx_side_connect}

-- A message of the channel, with the socket of a `ConnectedTx`.
abbrev pub Arrival : (S O P : Type 0) → Type 0
Arrival S O P = Incoming S O P × Shared

-- Whether another node than `id` has not been counted twice. The first of the counts is of node `k`.
unfoldable pub waits : NodeId → ℕ → List ℕ → Bool
waits id k [] = false
waits id k (n ∷ c) = (not (k == id) && not (n == 2)) || waits id (suc k) c

-- `c[usize::from(id)] += 1`
unfoldable pub add_one : NodeId → List ℕ → Result (List ℕ)
add_one id c = do n ← unwrap (get_elem? c id); ok (set c id (n + 1))

-- Only a node that is no client is counted.
unfoldable pub count_peer : NodeId → NodeId → List ℕ → Result (List ℕ)
unfolding add_one
count_peer first_cli id c = if ltb id first_cli then add_one id c else ok c

-- The variables of the loop, and the tasks that it has spawned to connect to clients.
pub record Booting (G : Signing) (S O P : Type 0) : Type 0 where
  pub node : Node G
  pub c : List ℕ
  pub rogue : List (Incoming S O P)
  pub tasks : List ConnectTask

-- The node is ready, with the messages that are still in its channel, or it waits for more.
pub data Booted (G : Signing) (S O P : Type 0) : Type 0 where
  ready : Booting G S O P → List (Arrival S O P) → Booted G S O P
  waiting : Booting G S O P → Booted G S O P

abbrev task_list : Option ConnectTask → List ConnectTask
task_list none = []
task_list (some task) = task ∷ []

module _ {G : Signing} {S O P : Type 0} where
  push_rogue : Booting G S O P → Incoming S O P → Booting G S O P
  push_rogue b m = record b { rogue = b.rogue ++ (m ∷ []) }

  -- The body of the loop. The texts of two errors name the node too.
  unfoldable pub boot_one : NodeId → Booting G S O P → Arrival S O P → Result (Booting G S O P)
  unfolding count_peer push_rogue
  boot_one first_cli b (connected_tx id, sock) = do
    let node = handle_connected_tx b.node id sock
    c ← count_peer first_cli id b.c
    ok (record b { node = node; c = c })
  boot_one first_cli b (connected_rx id, _) = do
    (task, node) ← handle_connected_rx b.node id
    c ← count_peer first_cli id b.c
    ok (record b { node = node; c = c; tasks = b.tasks ++ task_list task })
  boot_one first_cli b (disconnected_tx i, _) =
      err (wrapped communication "Node disconnected from send side")
  boot_one first_cli b (disconnected_rx (some i), _) =
      err (wrapped communication "Node disconnected from receive side")
  boot_one first_cli b (disconnected_rx none, _) =
      err (wrapped communication "Disconnected from receive side")
  boot_one first_cli b (system h m, _) = ok (push_rogue b (system h m))
  boot_one first_cli b (timeout k, _) = ok (push_rogue b (timeout k))
  boot_one first_cli b (execution_finished replies, _) =
      ok (push_rogue b (execution_finished replies))
  boot_one first_cli b (execution_finished_with_appstate replies state, _) =
      ok (push_rogue b (execution_finished_with_appstate replies state))

  unfoldable pub boot : NodeId → List (Arrival S O P) → Booting G S O P → Result (Booted G S O P)
  unfolding boot_one waits
  boot first_cli [] b = ok (if waits b.node.id 0 b.c then waiting b else ready b [])
  boot first_cli (m ∷ ms) b =
      if waits b.node.id 0 b.c
      then boot_one first_cli b m >>= (λ b. boot first_cli ms b)
      else ok (ready b (m ∷ ms))

  -- The new node, before the loop.
  abbrev pub new_node : NodeConfig G → State → Booting G S O P
  new_node cfg rng = record {
    node = record {
      id = cfg.id;
      first_cli = cfg.first_cli;
      rng = rng;
      shared = record { my_key = cfg.sk; peer_keys = cfg.pk };
      peer_tx = if leb cfg.first_cli cfg.id then client [] else server [];
      peer_addrs = cfg.addrs;
    };
    c = replicate cfg.n 0;
    rogue = [];
    tasks = [];
  }

  unfoldable pub start :
      NodeConfig G → State → List (Arrival S O P) → Result (List ConnectTask × Booted G S O P)
  unfolding boot
  start cfg seed arrivals = do
    (tasks, rng) ← tx_side_connect cfg.n cfg.id cfg.addrs seed
    booted ← boot cfg.first_cli arrivals (new_node cfg rng)
    ok (tasks, booted)

  -- `bootstrap`, with the outcome of `socket::bind`, the state of a new generator, and what comes
  -- in on the channel.
  unfoldable pub bootstrap :
      NodeConfig G
      → (Address → Result {0} Unit)
      → State
      → List (Arrival S O P)
      → Result (List ConnectTask × Booted G S O P)
  unfolding start
  bootstrap cfg bind seed arrivals =
      if ltb cfg.n (3 * cfg.f + 1)
      then err (wrapped communication "Invalid number of replicas")
      else if leb cfg.n cfg.id && ltb cfg.id cfg.first_cli
      then err (wrapped communication "Invalid node ID")
      else unwrap (get cfg.id cfg.addrs) >>= bind >>= (λ _. start cfg seed arrivals)
