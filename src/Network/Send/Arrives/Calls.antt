-- ===== src/Network/Send/Arrives/Calls.antt =====
-- What a call of `send` or `broadcast` leads to (bft/communication/mod.rs).
use bafomet.Base.{
  ℕ, Bool, true, false, if◌then◌else◌, ◌==◌, ==_iff, Bool-cases, none, some, ok, panic, List, [],
  ◌∷◌, ◌++◌, map, get, ◌≡◌, ◌⊎◌, inl, inr, refl, sym, subst, arith,
}
use bafomet.Crypto.{Hash, entropy, to_le_bytes}
use bafomet.Message.{NodeId, Digest}
use bafomet.Message.System.{SystemMessage}
use bafomet.Message.Wire.{Signing}
use bafomet.Message.Framing.{AsyncWrite}
use bafomet.Prng.{next_state}
use bafomet.Network.Types.{SharedData, Shared, NodeShared, Node}
use bafomet.Network.Send.{
  SendTo, me, peers, left, right, Turn, Job, peer_map, to_peer, send_to, send_tos, mine_first,
  serialize_digest, send_impl, broadcast_impl, send, broadcast,
}
use bafomet.Network.Send.Arrives.{Signs, Arrives, me-Arrives, peers-Arrives}
use bafomet.Network.Send.Arrives.Targets.{
  Pairs, Pairs-map, is_target, others_of, addressees, Reachable, HandleOf, my_handle, locked,
  create_send_tos-Pairs, create_send_tos_missing,
}

module _ (H : Hash) (G : Signing) (A : AsyncWrite) {S O P : Type 0} (D : SharedData S O P) where
  mine_first-Pairs :
      (R : NodeId → Job G S O P → Type 0) (id : NodeId) (shared : NodeShared G) (listed : Bool)
      (others : List NodeId) (turn : Turn S O P) (jobs : List (Job G S O P))
      → R id (record { send_to = me id shared; turn = turn })
      → Pairs R others jobs
      → Pairs R
          (if listed then id ∷ others else others)
          (mine_first H G D (if listed then some (me id shared) else none) turn jobs)
  unfolding mine_first
  mine_first-Pairs R id shared true others turn jobs mine pairs = (mine, pairs)
  mine_first-Pairs R id shared false others turn jobs mine pairs = pairs

  -- A message that can be serialized, from a node whose key signs, is broadcast to targets that
  -- are connected or the node itself. Then the node gets one task for each addressee, in order:
  -- for itself, once, if it is a target, and for each other target as often as it is listed. Each
  -- task succeeds whenever it runs, if the sockets of the node are there: a message with that
  -- payload and the digest that is returned, signed by the node, is put in its own channel, or
  -- written to the peer unless writing fails, which the node is told.
  pub broadcast-Arrives :
      (node : Node G) (message : SystemMessage S O P) (targets : List NodeId) (buf : List ℕ)
      → D.serialize_message message ≡ ok buf
      → Signs G node
      → Reachable node.id (peer_map node.peer_tx) targets
      → (digest : Digest) × (jobs : List (Job G S O P)) × (broadcast H G D node message targets
          ≡ ok (digest, jobs, record node { rng = (next_state node.rng).1 }))
        × Pairs (Arrives H G A node message digest buf) (addressees node.id targets) jobs
  unfolding broadcast send_tos broadcast_impl serialize_digest addressees
  broadcast-Arrives node message targets buf serialized signs reachable =
      let m = peer_map node.peer_tx in
      let nonce = (next_state node.rng).0 in
      let d = H.hash buf in
      let digest = entropy H d (to_le_bytes 8 nonce) in
      let (new, made, pairs) =
        create_send_tos-Pairs G node.id node.shared m targets none [] reachable in
      let for_peer : SendTo G → Job G S O P =
        λ s. record { send_to = s; turn = left nonce d buf } in
      let peer_jobs = map for_peer new in
      let arrive =
        Pairs-map (HandleOf G node.id node.shared m) (Arrives H G A node message digest buf)
          for_peer
          (λ t s (lock, there, is).
            subst (λ r. Arrives H G A node message digest buf t (for_peer r)) (sym is)
              (peers-Arrives H G A node message t lock nonce d buf signs there))
          (others_of node.id targets) new pairs in
      (
        digest,
        mine_first H G D (my_handle G node.id node.shared m (is_target node.id targets) none)
            (right message nonce d buf) peer_jobs,
        rw (made, serialized) refl,
        mine_first-Pairs (Arrives H G A node message digest buf) node.id node.shared
            (is_target node.id targets) (others_of node.id targets) (right message nonce d buf)
            peer_jobs (me-Arrives H G A node message nonce d buf signs) arrive,
      )

  -- A message that is sent takes one task, with the same outcome.
  pub send-Arrives :
      (node : Node G) (message : SystemMessage S O P) (target : NodeId) (buf : List ℕ)
      → D.serialize_message message ≡ ok buf
      → Signs G node
      → (target ≡ node.id) ⊎ ((lock : Shared) × (get target (peer_map node.peer_tx) ≡ some lock))
      → (digest : Digest) × (job : Job G S O P) × (send H G D node message target
          ≡ ok (digest, job ∷ [], record node { rng = (next_state node.rng).1 }))
        × Arrives H G A node message digest buf target job
  unfolding send send_to send_impl serialize_digest to_peer
  send-Arrives node message target buf serialized signs reachable =
      let nonce = (next_state node.rng).0 in
      let d = H.hash buf in
      elim (Bool-cases (node.id == target)) [
        | inl e ↦
            let same : node.id ≡ target = (==_iff node.id target).0 e in
            let job : Job G S O P = record {
              send_to = me node.id node.shared;
              turn = right message nonce d buf;
            } in
            (
              entropy H d (to_le_bytes 8 nonce),
              job,
              rw (e, serialized) refl,
              subst (λ t. Arrives H G A node message (entropy H d (to_le_bytes 8 nonce)) buf t job)
                  same (me-Arrives H G A node message nonce d buf signs),
            )
        | inr e ↦
            let other : (target == node.id) ≡ false = ground (arith, e) in
            let (lock, there) =
              locked G node.id node.shared (peer_map node.peer_tx) target other reachable in
            let job : Job G S O P = record {
              send_to = peers node.id target node.shared lock;
              turn = left nonce d buf;
            } in
            (
              entropy H d (to_le_bytes 8 nonce),
              job,
              rw (e, there, serialized) refl,
              peers-Arrives H G A node message target lock nonce d buf signs there,
            )
      ]

  -- A broadcast panics if any target is neither the node itself nor connected.
  pub broadcast_missing :
      (node : Node G) (message : SystemMessage S O P) (before after : List NodeId) (t : NodeId)
      → (t == node.id) ≡ false
      → get t (peer_map node.peer_tx) ≡ none
      → broadcast H G D node message (before ++ (t ∷ after)) ≡ panic
  unfolding broadcast send_tos
  broadcast_missing node message before after t e missing =
      rw
        (create_send_tos_missing G node.id node.shared (peer_map node.peer_tx) before after t none
          [] e missing)
        refl
