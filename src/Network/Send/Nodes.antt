-- ===== src/Network/Send/Nodes.antt =====
-- `SendNode` (bft/communication/mod.rs): a node that only sends.
use bafomet.Base.{Result, ok, err, panic, ap, ◌>>=◌, List, ◌≡◌, refl}
use bafomet.Crypto.{Hash}
use bafomet.Message.{NodeId, Digest}
use bafomet.Message.System.{SystemMessage}
use bafomet.Message.Wire.{Signing}
use bafomet.Prng.{State, next_state}
use bafomet.Network.Types.{SharedData, PeerTx, NodeShared, Node}
use bafomet.Network.Send
use bafomet.Network.Send.{Job, send_to, send_impl, send_tos, broadcast_impl}

-- `SendNode`, less the handle of the channel.
pub record SendNode (G : Signing) : Type 0 where
  pub id : NodeId
  pub shared : NodeShared G
  pub rng : State
  pub peer_tx : PeerTx

module _ {G : Signing} where
  -- `Node::send_node` and `SendNode::clone`, with a new generator. The map of a server is copied,
  -- that of a client is shared.
  abbrev pub send_node : Node G → State → SendNode G
  send_node node rng = record {
    id = node.id;
    shared = node.shared;
    rng = rng;
    peer_tx = node.peer_tx;
  }

  abbrev pub clone : SendNode G → State → SendNode G
  clone node rng = record node { rng = rng }

module _ (H : Hash) (G : Signing) {S O P : Type 0} (D : SharedData S O P) where
  unfoldable pub send :
      SendNode G → SystemMessage S O P → NodeId → Result (Digest × List (Job G S O P) × SendNode G)
  unfolding send_impl send_to
  send node message target = do
    to ← send_to G node.id target node.shared node.peer_tx
    let (nonce, rng) = next_state node.rng
    (digest, jobs) ← send_impl H G D message to node.id target nonce
    ok (digest, jobs, record node { rng = rng })

  unfoldable pub broadcast :
      SendNode G
      → SystemMessage S O P
      → List NodeId
      → Result (Digest × List (Job G S O P) × SendNode G)
  unfolding broadcast_impl send_tos
  broadcast node message targets = do
    (mine, others) ← send_tos G node.id node.peer_tx node.shared targets
    let (nonce, rng) = next_state node.rng
    (digest, jobs) ← broadcast_impl H G D message mine others nonce
    ok (digest, jobs, record node { rng = rng })

last_step {ℓ} :
    {Y Z1 Z2 W : Type ℓ} (b : Result Y) (mk1 : Y → Z1) (mk2 : Y → Z2) (p1 : Z1 → W) (p2 : Z2 → W)
    → ((y : Y) → p1 (mk1 y) ≡ p2 (mk2 y))
    → ((b >>= (λ y. ok (mk1 y))) >>= (λ z. ok (p1 z)))
      ≡ ((b >>= (λ y. ok (mk2 y))) >>= (λ z. ok (p2 z)))
last_step panic mk1 mk2 p1 p2 same = refl
last_step (err e) mk1 mk2 p1 p2 same = refl
last_step (ok y) mk1 mk2 p1 p2 same = ap ok (same y)

first_step {ℓ} :
    {X : Type 0} {Z1 Z2 W : Type ℓ} (a : Result X) (f1 : X → Result Z1) (f2 : X → Result Z2)
    (p1 : Z1 → W) (p2 : Z2 → W)
    → ((x : X) → (f1 x >>= (λ z. ok (p1 z))) ≡ (f2 x >>= (λ z. ok (p2 z))))
    → ((a >>= f1) >>= (λ z. ok (p1 z))) ≡ ((a >>= f2) >>= (λ z. ok (p2 z)))
first_step panic f1 f2 p1 p2 same = refl
first_step (err e) f1 f2 p1 p2 same = refl
first_step (ok x) f1 f2 p1 p2 same = same x

module _ (H : Hash) (G : Signing) {S O P : Type 0} (D : SharedData S O P) where
  abbrev outcome : {N : Type 0} → Digest × List (Job G S O P) × N → Digest × List (Job G S O P)
  outcome (digest, jobs, node) = (digest, jobs)

  -- What a `SendNode` of a node sends and returns is what the node would with the same generator.
  pub send_node-broadcast :
      (node : Node G) (rng : State) (message : SystemMessage S O P) (targets : List NodeId)
      → (broadcast H G D (send_node node rng) message targets >>= (λ r. ok (outcome r))) ≡ (
          Send.broadcast H G D (record node { rng = rng }) message targets
          >>= (λ r. ok (outcome r)))
  unfolding broadcast Send.broadcast
  send_node-broadcast node rng message targets =
      first_step (send_tos G node.id node.peer_tx node.shared targets) _ _ outcome outcome (λ x.
        last_step (broadcast_impl H G D message x.0 x.1 (next_state rng).0) _ _ outcome outcome
          (λ y. refl))
