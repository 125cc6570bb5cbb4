-- ===== src/Network/Send/Jobs.antt =====
-- The tasks that `send` and `broadcast` spawn, as they run (bft/communication/mod.rs).
use bafomet.Base.{
  ℕ, Bool, true, false, some, Result, ok, panic, unwrap, ◌>>=◌, List, [], ◌∷◌, ◌++◌, get, insert,
}
use bafomet.Crypto.{Hash}
use bafomet.Message.{NodeId, Digest}
use bafomet.Message.System.{SystemMessage}
use bafomet.Message.Wire.{Signing, WireMessage, new}
use bafomet.Message.Framing.{AsyncWrite, write_to}
use bafomet.Replica.Types.{Incoming, system, disconnected_tx}
use bafomet.Network.Types.{Shared, World}
use bafomet.Network.Send.{SendTo, me, peers, Turn, left, right, Job}

-- `tx.send(m).await.unwrap_or(())`
abbrev pub post : {A : AsyncWrite} {S O P : Type 0} → Incoming S O P → World A S O P → World A S O P
post m w = record w { posted = w.posted ++ (m ∷ []) }

module _ (H : Hash) (G : Signing) (A : AsyncWrite) {S O P : Type 0} where
  unfoldable pub send_me :
      NodeId
      → SystemMessage S O P
      → ℕ
      → Digest
      → List ℕ
      → G.KeyPair
      → World A S O P
      → Result (World A S O P)
  send_me my_id m n d b sk w = do
    wm ← new H G my_id my_id b n (some d) (some sk)
    ok (post (system wm.header m) w)

  -- The socket stays with the node when writing to it fails.
  unfoldable pub after_writing : NodeId → Shared → World A S O P → Bool × A.Writer → World A S O P
  after_writing peer_id lock w (true, sock) = record w { sockets = insert lock sock w.sockets }
  after_writing peer_id lock w (false, sock) =
      post (disconnected_tx peer_id) (record w { sockets = insert lock sock w.sockets })

  unfoldable pub write_message :
      NodeId → Shared → World A S O P → WireMessage → Result (World A S O P)
  unfolding after_writing
  write_message peer_id lock w wm = do
    sock ← unwrap (get lock w.sockets)
    done ← write_to A wm sock
    ok (after_writing peer_id lock w done)

  unfoldable pub send_peers :
      NodeId
      → NodeId
      → ℕ
      → Digest
      → List ℕ
      → G.KeyPair
      → Shared
      → World A S O P
      → Result (World A S O P)
  unfolding write_message
  send_peers my_id peer_id n d b sk lock w = do
    wm ← new H G my_id peer_id b n (some d) (some sk)
    write_message peer_id lock w wm

  -- `SendTo::value`
  unfoldable pub value : SendTo G → Turn S O P → World A S O P → Result (World A S O P)
  unfolding send_me send_peers
  value (me my_id sh) (right m n d b) w = send_me my_id m n d b sh.my_key w
  value (me my_id sh) (left n d b) w = panic
  value (peers my_id peer_id sh sock) (left n d b) w =
      send_peers my_id peer_id n d b sh.my_key sock w
  value (peers my_id peer_id sh sock) (right m n d b) w = panic

  -- Tasks, in the order in which they come to run.
  unfoldable pub run : List (Job G S O P) → World A S O P → Result (World A S O P)
  unfolding value
  run [] w = ok w
  run (job ∷ jobs) w = do w ← value job.send_to job.turn w; run jobs w
