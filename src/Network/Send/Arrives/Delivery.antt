-- ===== src/Network/Send/Arrives/Delivery.antt =====
-- From the node that sends to the node that receives (bft/communication/mod.rs).
use bafomet.Base.{
  ℕ, ◌^◌, ◌<◌, true, false, ◌==◌, some, ok, List, [], ◌∷◌, ◌++◌, length, get, suc, ◌≡◌, refl, sym,
  ap, ◌∙◌, arith,
}
use mathlib.Core.List.{append-nil}
use bafomet.Crypto.{Hash, unique_digest, entropy, to_le_bytes}
use bafomet.Message.{NodeId, Digest}
use bafomet.Message.System.{SystemMessage}
use bafomet.Message.Wire.{Signing, WireMessage, new, digest_or_zeros}
use bafomet.Message.Wire.Valid.{new-IsMade, new-signature}
use bafomet.Message.Framing.{AsyncWrite, header_bytes}
use bafomet.Replica.Types.{system, disconnected_rx}
use bafomet.Prng.{IsState, next_state}
use bafomet.Prng.Reversible.{next_state-IsState}
use bafomet.Network.Types.{SharedData, Shared, Node, World}
use bafomet.Network.Send.Jobs.{value}
use bafomet.Network.Send.{
  Job, peers, left, peer_map, send, send_to, to_peer, send_impl, serialize_digest,
}
use bafomet.Network.Send.Arrives.{Signs, HasSockets, Writes, new-Carries, peers-Writes}
use bafomet.Network.Receive.{AsyncRead, receive_loop}
use bafomet.Network.Receive.InOrder.{IsFrame, written, receive_loop-written}

-- The digests and the signatures of the node fit their bytes.
abbrev pub FitsBytes : (H : Hash) (G : Signing) → Node G → Type 0
FitsBytes H G node =
    ((bytes : List ℕ) → H.hash bytes < 256 ^ 32)
    × ((bytes : List ℕ) (s : ℕ) → G.sign node.shared.my_key bytes ≡ ok s → s < 256 ^ 64)

module _ (H : Hash) (G : Signing) (R : AsyncRead) {S O P : Type 0} (D : SharedData S O P) where
  new-IsFrame :
      (node : Node G) (target nonce : ℕ) (d : Digest) (buf : List ℕ) (message : SystemMessage S O P)
      (wm : WireMessage)
      → new H G node.id target buf nonce (some d) (some node.shared.my_key) ≡ ok wm
      → node.id < 2 ^ 32
      → target < 2 ^ 32
      → nonce < 2 ^ 64
      → d < 256 ^ 32
      → ((bytes : List ℕ) (s : ℕ) → G.sign node.shared.my_key bytes ≡ ok s → s < 256 ^ 64)
      → length buf < 2 ^ 64
      → R.reserves (length buf) ≡ true
      → D.deserialize_message buf ≡ some message
      → IsFrame R D (wm, message)
  unfolding digest_or_zeros
  new-IsFrame node target nonce d buf message wm made hi ht hn hd hs hl room reads =
      let (version, from, to, n, len, digest, payload) =
        new-IsMade H G node.id target buf nonce (some d) (some node.shared.my_key) wm made in
      let (bytes, signs) =
        new-signature H G node.id target buf nonce (some d) node.shared.my_key wm made in
      (
        (
          omega (arith, version),
          omega (arith, from, hi),
          omega (arith, to, ht),
          omega (arith, n, hn),
          omega (arith, len),
          omega (arith, digest, hd),
          hs bytes wm.header.signature signs,
        ),
        len ∙ omega (arith, hl) ∙ ap length (sym payload),
        ap (λ bytes. R.reserves (length bytes)) payload ∙ room,
        ap D.deserialize_message payload ∙ reads,
      )

module _ (H : Hash) (G : Signing) (A : AsyncWrite) (R : AsyncRead) {S O P : Type 0}
    (D : SharedData S O P) where
  -- A reader that gets the bytes of the message, and then the end of the connection, receives the
  -- message with its header.
  abbrev pub IsReceived : NodeId → SystemMessage S O P → WireMessage → Type 0
  IsReceived from message wm =
      (r : R.Reader)
      → R.incoming r ≡ header_bytes wm.header ++ wm.payload
      → receive_loop R D (suc (length (R.incoming r))) from r
        ≡ some (system wm.header message ∷ disconnected_rx (some from) ∷ [], ok tt)

  frame-IsReceived :
      (from : NodeId) (message : SystemMessage S O P) (wm : WireMessage)
      → IsFrame R D (wm, message)
      → IsReceived from message wm
  unfolding written
  frame-IsReceived from message wm frame r e =
      receive_loop-written R D ((wm, message) ∷ []) [] (suc (length (R.incoming r))) from r
        (frame, tt) (omega arith)
        (e
          ∙ ap (λ bytes. header_bytes wm.header ++ bytes) (sym (append-nil wm.payload))
          ∙ sym (append-nil (header_bytes wm.header ++ (wm.payload ++ []))))
        (omega arith)

  -- A node sends a message to a connected peer. Its key signs, its digests, signatures and nonces
  -- and both ids fit their words, and the message is serialized to less than 2 ^ 64 bytes, for
  -- which the buffer of the receiver has room and from which it is read back. Then there is one task, which succeeds whenever it runs, if the sockets
  -- of the node are there. Unless writing fails, which the node is told, the socket takes the
  -- bytes of a message whose header names the sender and has as its unique digest the one that
  -- `send` returned; and a peer that reads these bytes, and then the end of the connection,
  -- receives that header with the same message.
  pub send-IsReceived :
      (node : Node G) (message : SystemMessage S O P) (target : NodeId) (lock : Shared)
      (buf : List ℕ)
      → D.serialize_message message ≡ ok buf
      → D.deserialize_message buf ≡ some message
      → length buf < 2 ^ 64
      → R.reserves (length buf) ≡ true
      → Signs G node
      → FitsBytes H G node
      → IsState node.rng
      → node.id < 2 ^ 32
      → target < 2 ^ 32
      → (node.id == target) ≡ false
      → get target (peer_map node.peer_tx) ≡ some lock
      → (digest : Digest) × (job : Job G S O P) × (send H G D node message target
          ≡ ok (digest, job ∷ [], record node { rng = (next_state node.rng).1 }))
        × ((w : World A S O P)
            → HasSockets H G A node w
            → (after : World A S O P) × (value H G A job.send_to job.turn w ≡ ok after)
              × (wm : WireMessage) × (unique_digest H wm.header ≡ digest)
              × (wm.header.from ≡ node.id)
              × Writes H G A target lock wm w after
              × IsReceived node.id message wm)
  unfolding send send_to to_peer send_impl serialize_digest
  send-IsReceived node message target lock buf serialized reads short room signs
        (hash_fits, sig_fits) state hi ht other there =
      let nonce = (next_state node.rng).0 in
      let d = H.hash buf in
      let (wm, made, (from, _, unique, _, _)) = new-Carries H G node target nonce d buf signs in
      let nonce_fits = (next_state-IsState node.rng state).0 in
      let frame =
        new-IsFrame H G R D node target nonce d buf message wm made hi ht nonce_fits (hash_fits buf)
          sig_fits short room reads in
      let job : Job G S O P = record {
        send_to = peers node.id target node.shared lock;
        turn = left nonce d buf;
      } in
      (
        entropy H d (to_le_bytes 8 nonce),
        job,
        rw (other, there, serialized) refl,
        λ w has.
            let (after, run, writes) =
              peers-Writes H G A node target lock nonce d buf wm w made there has in
            (after, run, wm, unique, from, writes, frame-IsReceived node.id message wm frame),
      )
