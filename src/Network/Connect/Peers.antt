-- ===== src/Network/Connect/Peers.antt =====
-- What connections change of a node (bft/communication/mod.rs).
use bafomet.Base.{
  true, if◌then◌else◌, ◌==◌, Bool-cases, is_some, contains_key, Option, none, some, ok, unwrap,
  >>=-eq-ok, get, insert, get-insert, HashMap, ◌≡◌, ◌⊎◌, inl, inr, refl, subst, arith,
}
use bafomet.Message.{NodeId}
use bafomet.Message.Wire.{Signing}
use bafomet.Prng.{next_state}
use bafomet.Network.Types.{Address, Shared, PeerTx, client, server, Node}
use bafomet.Network.Send.{peer_map}
use bafomet.Network.Connect.{
  ConnectTask, insert_peer, connects_back, connect_back, handle_connected_rx,
}

contains_key-insert :
    (id i : NodeId) (sock : Shared) (m : HashMap Shared)
    → (contains_key i m ≡ true) ⊎ ((id == i) ≡ true)
    → contains_key i (insert id sock m) ≡ true
unfolding contains_key
contains_key-insert id i sock m h = elim (Bool-cases (id == i)) [
  | inl same ↦ rw (get-insert i id sock m, same) refl
  | inr other ↦
      let had : is_some (get i m) ≡ true = elim h [ inl has ↦ has | inr same ↦ cc ] in
      rw (get-insert i id sock m, other) had
]

-- A peer stays, and the one that is connected is there.
pub insert_peer-has :
    (id i : NodeId) (sock : Shared) (tx : PeerTx)
    → (contains_key i (peer_map tx) ≡ true) ⊎ ((id == i) ≡ true)
    → contains_key i (peer_map (insert_peer id sock tx)) ≡ true
unfolding insert_peer
insert_peer-has id i sock (client m) h = contains_key-insert id i sock m h
insert_peer-has id i sock (server m) h = contains_key-insert id i sock m h

module _ {G : Signing} where
  -- A connection from a peer changes neither.
  pub handle_connected_rx_keeps :
      (node after : Node G) (id : NodeId) (task : Option ConnectTask)
      → handle_connected_rx node id ≡ ok (task, after)
      → (after.id ≡ node.id) × (after.peer_tx ≡ node.peer_tx) × (after.peer_addrs ≡ node.peer_addrs)
  unfolding handle_connected_rx connect_back
  handle_connected_rx_keeps node after id task e =
      elim (Bool-cases (connects_back node.first_cli id node.peer_tx)) [
        | inl back ↦
            let opened =
              subst (λ t. (if t then connect_back node id else ok (none, node)) ≡ ok (task, after))
                back e in
            let (addr, _, made) = >>=-eq-ok (unwrap (get id node.peer_addrs)) _ opened in
            (ground (arith, made), ground (arith, made), ground (arith, made))
        | inr not_back ↦
            let opened =
              subst (λ t. (if t then connect_back node id else ok (none, node)) ≡ ok (task, after))
                not_back e in
            (ground (arith, opened), ground (arith, opened), ground (arith, opened))
      ]

  pub handle_connected_rx-ok :
      (node : Node G) (id : NodeId) (addr : Address)
      → get id node.peer_addrs ≡ some addr
      → (task : Option ConnectTask) × (after : Node G) × (handle_connected_rx node id
          ≡ ok (task, after))
  unfolding handle_connected_rx connect_back
  handle_connected_rx-ok node id addr known =
      elim (Bool-cases (connects_back node.first_cli id node.peer_tx)) [
        | inl back ↦
            let task : ConnectTask = record {
              peer_id = id;
              nonce = (next_state node.rng).0;
              addr = addr;
            } in
            let after : Node G = record node { rng = (next_state node.rng).1 } in
            (some task, after, rw (back, known) refl)
        | inr not_back ↦ (none, node, rw (not_back) refl)
      ]
