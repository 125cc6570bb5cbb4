-- ===== src/Network/Tests.antt =====
-- A node that sends, receives and accepts, on concrete values.
use bafomet.Base.{
  ◌-◌, ◌^◌, ◌⊎◌, panic, ℕ, ◌<◌, if◌then◌else◌, ltb, none, some, ok, panic, List, [], ◌∷◌, ◌++◌, get,
  ◌≡◌, inl, inr, refl, arith,
}
use bafomet.Crypto.{to_le_bytes}
use bafomet.Message.{NodeId, Digest, Header}
use bafomet.Message.System.{SystemMessage, request}
use bafomet.Message.Wire.{WireMessage, new, sign_parts, digest_parts}
use bafomet.Message.Framing.{header_bytes}
use bafomet.Message.Samples.{adding, keyed, kept}
use bafomet.Prng.{next_state}
use bafomet.Replica.Types.{Incoming, system, disconnected_rx}
use bafomet.Network.Send.{Job, broadcast}
use bafomet.Network.Send.Arrives.{Signs, Arrives}
use bafomet.Network.Send.Arrives.Targets.{Pairs, addressees, Reachable}
use bafomet.Network.Send.Arrives.Calls.{broadcast-Arrives, broadcast_missing}
use bafomet.Network.Receive.{receive_loop}
use bafomet.Network.Receive.InOrder.{written, IsFrame, receive_loop-written, receive_loop_overlong}
use bafomet.Network.Receive.Framed.{IsBehind, IsOverlong, receive_loop_ends}
use bafomet.Network.Connect.{ConnectTask, dialed, greet}
use bafomet.Network.Connect.Accept.{accepted, dropped, rx_side_accept_task}
use bafomet.Network.Connect.Handshake.{greeting, rx_side_accept_task-greet}
use bafomet.Network.Types.{World}
use bafomet.Network.Send.{send}
use bafomet.Network.Send.Jobs.{value}
use bafomet.Network.Send.Arrives.{HasSockets, Writes}
use bafomet.Network.Send.Arrives.Delivery.{FitsBytes, IsReceived, send-IsReceived}
use bafomet.Crypto.{unique_digest}
use bafomet.Prng.{IsState}
use bafomet.Network.Samples.{heard, numbers, seed, node, dialer}

abbrev asks : SystemMessage ℕ ℕ ℕ
asks = request (record { operation = 5 })

node-Signs : Signs keyed node
node-Signs bytes = (_, refl)

-- Node 0 asks node 1 and itself, which it names twice.
both-Reachable : Reachable 0 ((1, 7) ∷ []) (0 ∷ 1 ∷ 0 ∷ [])
unfolding get
both-Reachable = (inl refl, (inr (7, refl), (inl refl, tt)))

broadcast-Arrives_example :
    (digest : Digest) × (jobs : List (Job keyed ℕ ℕ ℕ)) × (broadcast adding keyed numbers node asks
        (0 ∷ 1 ∷ 0 ∷ [])
      ≡ ok (digest, jobs, record node { rng = (next_state seed).1 }))
    × Pairs (Arrives adding keyed kept node asks digest (5 ∷ [])) (0 ∷ 1 ∷ []) jobs
unfolding addressees
broadcast-Arrives_example =
    broadcast-Arrives adding keyed kept numbers node asks (0 ∷ 1 ∷ 0 ∷ []) (5 ∷ []) refl node-Signs
      both-Reachable

-- Node 2 is not connected.
broadcast_missing_example : broadcast adding keyed numbers node asks (1 ∷ 2 ∷ 0 ∷ []) ≡ panic
unfolding get
broadcast_missing_example =
    broadcast_missing adding keyed kept numbers node asks (1 ∷ []) (0 ∷ []) 2 refl refl

abbrev sent : WireMessage
sent = record {
  header = record {
    version = 0;
    from = 1;
    to = 0;
    nonce = 11520;
    length = 1;
    digest = 5;
    signature = 12;
  };
  payload = 5 ∷ [];
}

sent-IsFrame : IsFrame heard numbers (sent, asks)
sent-IsFrame = (
  (omega arith, omega arith, omega arith, omega arith, omega arith, omega arith, omega arith),
  refl,
  refl,
  refl,
)

receive_loop-written_example :
    receive_loop heard numbers 300 1 (written (sent ∷ sent ∷ []) ++ 9 ∷ [])
    ≡ some
        (system sent.header asks ∷ system sent.header asks ∷ disconnected_rx (some 1) ∷ [], ok tt)
unfolding written header_bytes to_le_bytes
receive_loop-written_example =
    receive_loop-written heard numbers ((sent, asks) ∷ (sent, asks) ∷ []) (9 ∷ []) 300 1
      (written (sent ∷ sent ∷ []) ++ 9 ∷ []) (sent-IsFrame, (sent-IsFrame, tt)) (omega arith) refl
      (omega arith)

-- A header that announces 2 ^ 64 - 1 bytes.
abbrev overlong : Header
overlong = record sent.header { length = 2 ^ 64 - 1 }

receive_loop_overlong_example :
    receive_loop heard numbers 300 1 (written (sent ∷ []) ++ (header_bytes overlong ++ 9 ∷ []))
    ≡ some (system sent.header asks ∷ [], panic)
unfolding written header_bytes to_le_bytes
receive_loop_overlong_example =
    receive_loop_overlong heard numbers ((sent, asks) ∷ []) overlong (9 ∷ []) 300 1
      (written (sent ∷ []) ++ (header_bytes overlong ++ 9 ∷ [])) (sent-IsFrame, tt)
      (omega arith, omega arith, omega arith, omega arith, omega arith, omega arith, omega arith)
      (omega arith) refl (omega arith)

-- Three bytes are no header.
receive_loop_ends_example :
    (ms : List (Incoming ℕ ℕ ℕ)) × ((receive_loop heard numbers 4 1 (1 ∷ 2 ∷ 3 ∷ [])
        ≡ some (ms ++ (disconnected_rx (some 1) ∷ []), ok tt))
      ⊎ (receive_loop heard numbers 4 1 (1 ∷ 2 ∷ 3 ∷ []) ≡ some (ms, panic))
        × (at : List ℕ) × IsOverlong heard numbers at
        × IsBehind heard at (1 ∷ 2 ∷ 3 ∷ []))
receive_loop_ends_example = receive_loop_ends heard numbers 4 1 (1 ∷ 2 ∷ 3 ∷ []) (omega arith)

-- Replica 1 connects to replica 0, with the nonce 9.
greet-one :
    greet adding keyed kept dialer 1 0 9 (some []) ≡ ok (dialed (header_bytes (greeting 1 0 9)))
unfolding greet new bafomet.Message.Framing.serialize_into to_le_bytes
greet-one = refl

rx_side_accept_task-greet_example :
    (left : List ℕ) × (rx_side_accept_task adding keyed heard 4 0
        (some (header_bytes (greeting 1 0 9) ++ 8 ∷ []))
      ≡ ok (accepted 1 left))
    × (left ≡ 8 ∷ [])
rx_side_accept_task-greet_example =
    rx_side_accept_task-greet adding keyed kept dialer heard 4 0 1 0 9 []
      (header_bytes (greeting 1 0 9)) (header_bytes (greeting 1 0 9) ++ 8 ∷ []) (8 ∷ [])
      (omega arith) (omega arith) (omega arith) greet-one refl

-- Client 5 connects to client 4, and is dropped.
clients_dropped :
    rx_side_accept_task adding keyed heard 4 4 (some (header_bytes (greeting 5 4 9))) ≡ ok dropped
unfolding rx_side_accept_task header_bytes to_le_bytes bafomet.Message.Framing.deserialize_from
    bafomet.Message.Wire.from_parts
clients_dropped = refl

abbrev task : ConnectTask
task = record { peer_id = 1; nonce = 9; addr = (11, "b") }

refused_twice : (j : ℕ) → j < 2 → (if ltb j 2 then none else some j) ≡ none
refused_twice j h = ground (arith, h)

node-FitsBytes : FitsBytes adding keyed node
node-FitsBytes = (λ bytes. omega arith, λ bytes s e. ground (arith, e))

seed-IsState : IsState seed
seed-IsState = (omega arith, omega arith, omega arith, omega arith)

send-IsReceived_example :
    (digest : Digest) × (job : Job keyed ℕ ℕ ℕ) × (send adding keyed numbers node asks 1
      ≡ ok (digest, job ∷ [], record node { rng = (next_state seed).1 }))
    × ((w : World kept ℕ ℕ ℕ)
        → HasSockets adding keyed kept node w
        → (after : World kept ℕ ℕ ℕ) × (value adding keyed kept job.send_to job.turn w ≡ ok after)
          × (wm : WireMessage) × (unique_digest adding wm.header ≡ digest)
          × (wm.header.from ≡ 0)
          × Writes adding keyed kept 1 7 wm w after
          × IsReceived adding keyed kept heard numbers 0 asks wm)
unfolding get
send-IsReceived_example =
    send-IsReceived adding keyed kept heard numbers node asks 1 7 (5 ∷ []) refl refl (omega arith)
      refl node-Signs node-FitsBytes seed-IsState (omega arith) (omega arith) refl refl
