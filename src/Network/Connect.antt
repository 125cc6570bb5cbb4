-- ===== src/Network/Connect.antt =====
-- Making connections (bft/communication/mod.rs).
pub mod Accept
pub mod Handshake
pub mod Retries
pub mod Peers
use bafomet.Base.{
  ℕ, zero, suc, ◌+◌, Bool, true, false, not, ◌&&◌, if◌then◌else◌, leb, ◌==◌, Option, none, some,
  is_some, contains_key, Result, ok, err, panic, unwrap, ◌>>=◌, List, [], ◌∷◌, replicate, HashMap,
  get, insert, leb,
}
use bafomet.Crypto.{Hash}
use bafomet.Message.{NodeId}
use bafomet.Message.Wire.{Signing, expect_ok, new}
use bafomet.Message.Framing.{AsyncWrite, header_length, serialize_into}
use bafomet.Replica.Types.{Incoming, connected_tx, disconnected_tx}
use bafomet.Prng.{State, next_state}
use bafomet.Network.Types.{Shared, Address, PeerTx, client, server, Node}

-- What the sockets and TLS of other packages answer while a task tries to connect to an address:
-- `socket::connect` at each attempt, and the handshake.
pub record Dialer (A : AsyncWrite) : Type 1 where
  pub Stream : Type 0
  pub connect : Address → ℕ → Option Stream
  pub handshake : Address → Stream → Option A.Writer

-- `RETRY`
abbrev pub retry : ℕ
retry = 180

-- How a task that connects ends: with the socket of `ConnectedTx`, or with `DisconnectedTx`.
pub data Dialed (A : AsyncWrite) : Type 0 where
  dialed : A.Writer → Dialed A
  not_dialed : Dialed A

-- A task to connect to a peer.
pub record ConnectTask : Type 0 where
  pub peer_id : NodeId
  pub nonce : ℕ
  pub addr : Address

-- The socket is kept if the header was written.
keep_if : (A : AsyncWrite) → Bool × A.Writer → Dialed A
keep_if A (true, sock) = dialed sock
keep_if A (false, sock) = not_dialed

module _ (H : Hash) (G : Signing) (A : AsyncWrite) (C : Dialer A) where
  -- The unsigned header that a connection starts with.
  unfoldable pub greet : NodeId → NodeId → ℕ → Option A.Writer → Result (Dialed A)
  unfolding keep_if
  greet my_id peer_id nonce none = ok not_dialed
  greet my_id peer_id nonce (some sock) = do
    wm ← new H G my_id peer_id [] nonce none none
    buf ← expect_ok (serialize_into wm.header (replicate header_length 0))
    ok (keep_if A (A.write_all sock buf))

  -- One attempt, with what comes of the later ones.
  unfoldable pub attempt :
      NodeId → ConnectTask → Option C.Stream → Result (Dialed A) → Result (Dialed A)
  unfolding greet
  attempt my_id task none later = later
  attempt my_id task (some stream) later =
      greet my_id task.peer_id task.nonce (C.handshake task.addr stream)

  -- The loop, with the attempts that are left and the number of the next one; the pause between
  -- two attempts changes nothing.
  unfoldable pub attempts : NodeId → ConnectTask → ℕ → ℕ → Result (Dialed A)
  unfolding attempt
  attempts my_id task zero k = ok not_dialed
  attempts my_id task (suc left) k =
      attempt my_id task (C.connect task.addr k) (attempts my_id task left (suc k))

  unfoldable pub tx_side_connect_task : NodeId → ConnectTask → Result (Dialed A)
  unfolding attempts
  tx_side_connect_task my_id task = attempts my_id task retry 0

-- The ids from `k` on, `n` of them, less that of the node: a task for each.
connect_from : NodeId → HashMap Address → ℕ → ℕ → State → Result (List ConnectTask × State)
connect_from my_id addrs zero k rng = ok ([], rng)
connect_from my_id addrs (suc n) k rng =
    if not (k == my_id)
    then (do
      addr ← unwrap (get k addrs)
      let (nonce, rng) = next_state rng
      (tasks, rng) ← connect_from my_id addrs n (k + 1) rng
      ok (record { peer_id = k; nonce = nonce; addr = addr } ∷ tasks, rng))
    else connect_from my_id addrs n (k + 1) rng

unfoldable pub tx_side_connect :
    ℕ → NodeId → HashMap Address → State → Result (List ConnectTask × State)
unfolding connect_from
tx_side_connect n my_id addrs rng = connect_from my_id addrs n 0 rng

unfoldable pub insert_peer : NodeId → Shared → PeerTx → PeerTx
insert_peer peer_id sock (server m) = server (insert peer_id sock m)
insert_peer peer_id sock (client m) = client (insert peer_id sock m)

-- A server connects to a client that it is not connected to.
unfoldable pub connects_back : NodeId → NodeId → PeerTx → Bool
connects_back first_cli peer_id (client m) = false
connects_back first_cli peer_id (server m) = leb first_cli peer_id && not (contains_key peer_id m)

module _ {G : Signing} where
  unfoldable pub handle_connected_tx : Node G → NodeId → Shared → Node G
  unfolding insert_peer
  handle_connected_tx node peer_id sock = record node {
    peer_tx = insert_peer peer_id sock node.peer_tx;
  }

  unfoldable pub connect_back : Node G → NodeId → Result (Option ConnectTask × Node G)
  connect_back node peer_id = do
    addr ← unwrap (get peer_id node.peer_addrs)
    let (nonce, rng) = next_state node.rng
    ok (some (record { peer_id = peer_id; nonce = nonce; addr = addr }), record node { rng = rng })

  -- The task that receives from the peer, which is spawned too, is `receive_loop`.
  unfoldable pub handle_connected_rx : Node G → NodeId → Result (Option ConnectTask × Node G)
  unfolding connects_back connect_back
  handle_connected_rx node peer_id =
      if connects_back node.first_cli peer_id node.peer_tx
      then connect_back node peer_id
      else ok (none, node)
