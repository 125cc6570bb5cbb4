-- ===== src/Network/Send/Arrives.antt =====
-- What a task that was spawned to send a message does (bft/communication/mod.rs).
pub mod Targets
pub mod Calls
pub mod Delivery
use bafomet.Base.{
  ℕ, Bool, true, false, Option, some, Result, ok, unwrap, ◌>>=◌, >>=-eq-ok, List, [], ◌∷◌, ◌++◌,
  get, insert, ◌≡◌, ◌⊎◌, inl, inr, refl, sym, ap, ◌∙◌,
}
use bafomet.Crypto.{Hash, unique_digest, entropy, to_le_bytes}
use bafomet.Message.{NodeId, Digest, Header}
use bafomet.Message.System.{SystemMessage}
use bafomet.Message.Wire.{Signing, WireMessage, new, is_valid, digest_or_zeros}
use bafomet.Message.Wire.Valid.{is_valid-new, new-IsMade, new_signed}
use bafomet.Message.Framing.{AsyncWrite, header_bytes, write_to}
use bafomet.Message.Framing.Bytes.{write_to-taken}
use bafomet.Replica.Types.{Incoming, system, disconnected_tx}
use bafomet.Network.Types.{Shared, Node, World}
use bafomet.Network.Send.{SendTo, me, peers, left, right, Turn, Job, peer_map}
use bafomet.Network.Send.Jobs.{post, send_me, send_peers, write_message, after_writing, value}

module _ (H : Hash) (G : Signing) where
  -- A message with the payload `buf`, from the node to `target`, that is signed by the node and has
  -- the unique digest `digest`.
  abbrev pub Carries : Node G → NodeId → Digest → List ℕ → WireMessage → Type 0
  Carries node target digest buf wm =
      (wm.header.from ≡ node.id)
      × (wm.header.to ≡ target)
      × (unique_digest H wm.header ≡ digest)
      × (wm.payload ≡ buf)
      × (is_valid H G wm (some (G.public_key node.shared.my_key)) ≡ true)

-- Signing with the key of the node succeeds.
abbrev pub Signs : (G : Signing) → Node G → Type 0
Signs G node = (bytes : List ℕ) → (s : ℕ) × (G.sign node.shared.my_key bytes ≡ ok s)

module _ (H : Hash) (G : Signing) (A : AsyncWrite) {S O P : Type 0} where
  -- The sockets that the node refers to are there.
  abbrev pub HasSockets : Node G → World A S O P → Type 0
  HasSockets node w =
      (id : NodeId) (lock : Shared)
      → get id (peer_map node.peer_tx) ≡ some lock
      → (sock : A.Writer) × (get lock w.sockets ≡ some sock)

  -- The bytes of the message are all that the socket takes, and nothing else happens; or writing
  -- fails, and the node is told that the peer is disconnected.
  abbrev pub Writes : NodeId → Shared → WireMessage → World A S O P → World A S O P → Type 0
  Writes target lock wm w after =
      (before : A.Writer) × (sock : A.Writer) × (get lock w.sockets ≡ some before)
      × (after.sockets ≡ insert lock sock w.sockets)
      × (((after.posted ≡ w.posted)
            × (A.taken sock ≡ A.taken before ++ (header_bytes wm.header ++ wm.payload)))
          ⊎ (after.posted ≡ w.posted ++ (disconnected_tx target ∷ [])))

  -- The node itself finds the message in its channel; a peer gets the bytes.
  abbrev pub Reaches :
      Node G → NodeId → SystemMessage S O P → WireMessage → World A S O P → World A S O P → Type 0
  Reaches node target message wm w after =
      ((target ≡ node.id) × (after ≡ post (system wm.header message) w))
      ⊎ ((lock : Shared) × (get target (peer_map node.peer_tx) ≡ some lock)
          × Writes target lock wm w after)

  -- Whenever the task runs, it succeeds, and a message that carries `buf` reaches the target.
  abbrev pub Arrives :
      Node G → SystemMessage S O P → Digest → List ℕ → NodeId → Job G S O P → Type 0
  Arrives node message digest buf target job =
      (w : World A S O P)
      → HasSockets node w
      → (after : World A S O P) × (value H G A job.send_to job.turn w ≡ ok after)
        × (wm : WireMessage) × Carries H G node target digest buf wm
        × Reaches node target message wm w after

module _ (H : Hash) (G : Signing) where
  -- The message that is made for a target carries the payload.
  pub new-Carries :
      (node : Node G) (target : NodeId) (nonce : ℕ) (d : Digest) (buf : List ℕ)
      → Signs G node
      → (wm : WireMessage) × (new H G node.id target buf nonce (some d) (some node.shared.my_key)
          ≡ ok wm)
        × Carries H G node target (entropy H d (to_le_bytes 8 nonce)) buf wm
  unfolding unique_digest digest_or_zeros
  new-Carries node target nonce d buf signs =
      let key = node.shared.my_key in
      let (wm, made) = new_signed H G node.id target buf nonce (some d) key signs in
      let (_, from, to, n, _, digest, payload) =
        new-IsMade H G node.id target buf nonce (some d) (some key) wm made in
      let unique : unique_digest H wm.header ≡ entropy H d (to_le_bytes 8 nonce) =
        rw (digest, n) refl in
      let valid = is_valid-new H G node.id target buf nonce (some d) key wm made in
      (wm, made, (from, to, unique, payload, valid.0))

module _ (H : Hash) (G : Signing) (A : AsyncWrite) {S O P : Type 0} where
  pub me-Arrives :
      (node : Node G) (message : SystemMessage S O P) (nonce : ℕ) (d : Digest) (buf : List ℕ)
      → Signs G node
      → Arrives H G A node message
          (entropy H d (to_le_bytes 8 nonce))
          buf
          node.id
          (record { send_to = me node.id node.shared; turn = right message nonce d buf })
  unfolding value send_me
  me-Arrives node message nonce d buf signs w has =
      let (wm, made, carries) = new-Carries H G node node.id nonce d buf signs in
      let after : World A S O P = post (system wm.header message) w in
      (
        after,
        ap (λ r. r >>= (λ m. ok (post (system m.header message) w))) made,
        wm,
        carries,
        inl (refl, refl),
      )

  after_writing-Writes :
      (target : NodeId) (lock : Shared) (wm : WireMessage) (w : World A S O P) (before : A.Writer)
      (done : Bool × A.Writer)
      → get lock w.sockets ≡ some before
      → ((sock : A.Writer)
          → done ≡ (true, sock)
          → A.taken sock ≡ A.taken before ++ (header_bytes wm.header ++ wm.payload))
      → Writes H G A target lock wm w (after_writing H G A target lock w done)
  unfolding after_writing
  after_writing-Writes target lock wm w before (true, sock) e taken =
      (before, sock, e, refl, inl (refl, taken sock refl))
  after_writing-Writes target lock wm w before (false, sock) e taken =
      (before, sock, e, refl, inr refl)

  write_message-ok :
      (target : NodeId) (lock : Shared) (wm : WireMessage) (w : World A S O P) (before : A.Writer)
      (done : Bool × A.Writer)
      → get lock w.sockets ≡ some before
      → write_to A wm before ≡ ok done
      → write_message H G A target lock w wm ≡ ok (after_writing H G A target lock w done)
  unfolding write_message
  write_message-ok target lock wm w before done there written =
      ap
        (λ s.
          unwrap s
          >>= (λ sock. write_to A wm sock >>= (λ d. ok (after_writing H G A target lock w d))))
        there
      ∙ ap (λ r. r >>= (λ d. ok (after_writing H G A target lock w d))) written

  pub peers-Writes :
      (node : Node G) (target : NodeId) (lock : Shared) (nonce : ℕ) (d : Digest) (buf : List ℕ)
      (wm : WireMessage) (w : World A S O P)
      → new H G node.id target buf nonce (some d) (some node.shared.my_key) ≡ ok wm
      → get target (peer_map node.peer_tx) ≡ some lock
      → HasSockets H G A node w
      → (after : World A S O P) × (value H G A
            (peers node.id target node.shared lock)
            (left nonce d buf)
            w
          ≡ ok after)
        × Writes H G A target lock wm w after
  unfolding value send_peers
  peers-Writes node target lock nonce d buf wm w made at has =
      let (before, there) = has target lock at in
      let (done, written, taken) = write_to-taken A wm before in
      (
        after_writing H G A target lock w done,
        ap (λ r. r >>= write_message H G A target lock w) made
            ∙ write_message-ok target lock wm w before done there written,
        after_writing-Writes target lock wm w before done there taken,
      )

  pub peers-Arrives :
      (node : Node G) (message : SystemMessage S O P) (target : NodeId) (lock : Shared) (nonce : ℕ)
      (d : Digest) (buf : List ℕ)
      → Signs G node
      → get target (peer_map node.peer_tx) ≡ some lock
      → Arrives H G A node message
          (entropy H d (to_le_bytes 8 nonce))
          buf
          target
          (record { send_to = peers node.id target node.shared lock; turn = left nonce d buf })
  peers-Arrives node message target lock nonce d buf signs at w has =
      let (wm, made, carries) = new-Carries H G node target nonce d buf signs in
      let (after, run, writes) = peers-Writes node target lock nonce d buf wm w made at has in
      (after, run, wm, carries, inr (lock, at, writes))
