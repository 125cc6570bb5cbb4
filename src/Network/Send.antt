-- ===== src/Network/Send.antt =====
-- Sending and broadcasting (bft/communication/mod.rs), with the digest of a message from
-- bft/communication/serialize/mod.rs. A task that the code spawns is a value that is run later.
pub mod Jobs
pub mod Nodes
pub mod Arrives
use bafomet.Base.{
  ℕ, Bool, true, false, if◌then◌else◌, ◌==◌, Option, none, some, Result, ok, err, panic, unwrap,
  ◌>>=◌, List, [], ◌∷◌, ◌++◌, map, HashMap, get, insert,
}
use bafomet.Crypto.{Hash, update, finish, entropy, to_le_bytes}
use bafomet.Crypto
use bafomet.Message.{NodeId, Digest}
use bafomet.Message.System.{SystemMessage}
use bafomet.Message.Wire.{Signing, expect_ok}
use bafomet.Message.Wire
use bafomet.Message.Framing.{AsyncWrite, write_to}
use bafomet.Replica.Types.{Incoming, system, disconnected_tx}
use bafomet.Prng.{State, next_state}
use bafomet.Network.Types.{SharedData, Shared, PeerTx, client, server, NodeShared, Node, World}

-- The channel that the code keeps beside these fields is the one of the `World`.
pub data SendTo (G : Signing) : Type 0 where
  me : NodeId → NodeShared G → SendTo G
  peers : NodeId → NodeId → NodeShared G → Shared → SendTo G

-- The `Either` that a `SendTo` is run with: `right` for the node itself, `left` for a peer.
pub data Turn (S O P : Type 0) : Type 0 where
  left : ℕ → Digest → List ℕ → Turn S O P
  right : SystemMessage S O P → ℕ → Digest → List ℕ → Turn S O P

-- A spawned task.
pub record Job (G : Signing) (S O P : Type 0) : Type 0 where
  pub send_to : SendTo G
  pub turn : Turn S O P

abbrev pub peer_map : PeerTx → HashMap Shared
peer_map (client m) = m
peer_map (server m) = m

module _ (G : Signing) where
  -- `map[&id]` panics if the peer is not connected.
  to_peer : NodeId → NodeId → NodeShared G → HashMap Shared → Result (SendTo G)
  to_peer my_id peer_id shared m = do
    sock ← unwrap (get peer_id m)
    ok (peers my_id peer_id shared sock)

  unfoldable pub send_to : NodeId → NodeId → NodeShared G → PeerTx → Result (SendTo G)
  unfolding to_peer
  send_to my_id peer_id shared peer_tx =
      if my_id == peer_id
      then ok (me my_id shared)
      else to_peer my_id peer_id shared (peer_map peer_tx)

  unfoldable pub create_send_tos :
      NodeId
      → NodeShared G
      → HashMap Shared
      → List NodeId
      → Option (SendTo G)
      → List (SendTo G)
      → Result (Option (SendTo G) × List (SendTo G))
  unfolding to_peer
  create_send_tos my_id shared m [] mine others = ok (mine, others)
  create_send_tos my_id shared m (id ∷ targets) mine others =
      if id == my_id
      then create_send_tos my_id shared m targets (some (me my_id shared)) others
      else to_peer my_id id shared m
        >>= (λ s. create_send_tos my_id shared m targets mine (others ++ (s ∷ [])))

  unfoldable pub send_tos :
      NodeId → PeerTx → NodeShared G → List NodeId → Result (Option (SendTo G) × List (SendTo G))
  unfolding create_send_tos
  send_tos my_id peer_tx shared targets =
      create_send_tos my_id shared (peer_map peer_tx) targets none []

module _ (H : Hash) {S O P : Type 0} (D : SharedData S O P) where
  unfoldable pub serialize_digest : SystemMessage S O P → Result (Digest × List ℕ)
  serialize_digest message = do
    w ← D.serialize_message message
    ok (finish H (update Crypto.create w), w)

module _ (H : Hash) (G : Signing) {S O P : Type 0} (D : SharedData S O P) where
  unfoldable pub send_impl :
      SystemMessage S O P → SendTo G → NodeId → NodeId → ℕ → Result (Digest × List (Job G S O P))
  unfolding serialize_digest
  send_impl message send_to my_id target nonce = do
    (digest, buf) ← expect_ok (serialize_digest H D message)
    let turn : Turn S O P =
        if my_id == target then right message nonce digest buf else left nonce digest buf
    ok (entropy H digest (to_le_bytes 8 nonce), record { send_to = send_to; turn = turn } ∷ [])

  -- The jobs that a broadcast spawns, the one of the node itself first.
  mine_first : Option (SendTo G) → Turn S O P → List (Job G S O P) → List (Job G S O P)
  mine_first none turn jobs = jobs
  mine_first (some send_to) turn jobs = record { send_to = send_to; turn = turn } ∷ jobs

  unfoldable pub broadcast_impl :
      SystemMessage S O P
      → Option (SendTo G)
      → List (SendTo G)
      → ℕ
      → Result (Digest × List (Job G S O P))
  unfolding serialize_digest mine_first
  broadcast_impl message my_send_to other_send_tos nonce = do
    (digest, buf) ← expect_ok (serialize_digest H D message)
    let jobs = map (λ s. record { send_to = s; turn = left nonce digest buf }) other_send_tos
    ok (
      entropy H digest (to_le_bytes 8 nonce),
      mine_first my_send_to (right message nonce digest buf) jobs,
    )

  -- `Node::send`
  unfoldable pub send :
      Node G → SystemMessage S O P → NodeId → Result (Digest × List (Job G S O P) × Node G)
  unfolding send_impl send_to
  send node message target = do
    to ← send_to G node.id target node.shared node.peer_tx
    let (nonce, rng) = next_state node.rng
    (digest, jobs) ← send_impl message to node.id target nonce
    ok (digest, jobs, record node { rng = rng })

  -- `Node::broadcast`
  unfoldable pub broadcast :
      Node G → SystemMessage S O P → List NodeId → Result (Digest × List (Job G S O P) × Node G)
  unfolding broadcast_impl send_tos
  broadcast node message targets = do
    (mine, others) ← send_tos G node.id node.peer_tx node.shared targets
    let (nonce, rng) = next_state node.rng
    (digest, jobs) ← broadcast_impl message mine others nonce
    ok (digest, jobs, record node { rng = rng })
