-- ===== src/Network/Types.antt =====
-- The data of a node (bft/communication/mod.rs), and what its tasks act on.
use bafomet.Base.{ℕ, Option, Result, String, List, HashMap}
use bafomet.Message.{NodeId}
use bafomet.Message.System.{SystemMessage}
use bafomet.Message.Wire.{Signing}
use bafomet.Message.Framing.{AsyncWrite}
use bafomet.Replica.Types.{Incoming}
use bafomet.Prng.{State}

-- The functions of `SharedData` that a node calls, which the application supplies. An error of
-- `deserialize_message` is `none`: the code drops it.
pub record SharedData (S O P : Type 0) : Type 0 where
  pub serialize_message : SystemMessage S O P → Result (List ℕ)
  pub deserialize_message : List ℕ → Option (SystemMessage S O P)

-- An `Arc<Mutex<_>>` of a socket is the number of the socket in the `World`.
abbrev pub Shared : Type 0
Shared = ℕ

pub data PeerTx : Type 0 where
  client : HashMap Shared → PeerTx
  server : HashMap Shared → PeerTx

-- `NodeShared`
pub record NodeShared (G : Signing) : Type 0 where
  pub my_key : G.KeyPair
  pub peer_keys : HashMap G.PublicKey

-- `(SocketAddr, String)`
abbrev pub Address : Type 0
Address = ℕ × String

-- `Node`, less the connector and the two halves of its channel.
pub record Node (G : Signing) : Type 0 where
  pub id : NodeId
  pub first_cli : NodeId
  pub rng : State
  pub shared : NodeShared G
  pub peer_tx : PeerTx
  pub peer_addrs : HashMap Address

-- The fields of `NodeConfig`, less the configurations of TLS.
pub record NodeConfig (G : Signing) : Type 0 where
  pub n : ℕ
  pub f : ℕ
  pub id : NodeId
  pub first_cli : NodeId
  pub addrs : HashMap Address
  pub pk : HashMap G.PublicKey
  pub sk : G.KeyPair

-- The sockets that are shared, and what has been put in the channel of the node, oldest first.
pub record World (A : AsyncWrite) (S O P : Type 0) : Type 0 where
  pub sockets : HashMap A.Writer
  pub posted : List (Incoming S O P)
