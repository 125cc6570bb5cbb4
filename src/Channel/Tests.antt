-- ===== src/Channel/Tests.antt =====
-- A message channel whose queues are lists of at most two messages.
use bafomet.Base.{
  ℕ, if◌then◌else◌, ltb, Option, none, some, List, [], ◌∷◌, ◌++◌, length, ◌≡◌, refl, arith,
}
use bafomet.Message.{Header, RequestMessage}
use bafomet.Message.System.{request}
use bafomet.Replica.Types.{Incoming, system, connected_tx}
use bafomet.Replica.Samples.{header}
use bafomet.Channel.{
  Bounded, MessageChannel, from_requests, from_other, new_message_channel, send, recv, queued,
  branch_of, Run, stop, sends, receives,
}
use bafomet.Channel.Order.{run-first_out}

abbrev send_two {ℓ} : {T : Type ℓ} → List T → T → Option (List T)
send_two q t = if ltb (length q) 2 then some (q ++ (t ∷ [])) else none

abbrev recv_first {ℓ} : {T : Type ℓ} → List T → Option (T × List T)
recv_first [] = none
recv_first (t ∷ q) = some (t, q)

items-send_two :
    {T : Type 0} (q after : List T) (t : T) → send_two q t ≡ some after → after ≡ q ++ (t ∷ [])
items-send_two q after t e = ground (arith, e)

items-recv_first :
    {T : Type 0} (q after : List T) (t : T) → recv_first q ≡ some (t, after) → q ≡ t ∷ after
items-recv_first [] after t e = cc
items-recv_first (s ∷ q) after t e = cc

recv_first-none : {T : Type 0} (q : List T) → recv_first q ≡ none → q ≡ []
recv_first-none [] e = refl
recv_first-none (t ∷ q) e = cc

abbrev lists : Bounded
lists = record {
  Queue = λ T. List T;
  new_bounded = λ bound. [];
  send = send_two;
  recv = recv_first;
  items = λ q. q;
  items-new_bounded = λ bound. refl;
  items-send = items-send_two;
  items-recv = items-recv_first;
  recv-none = recv_first-none;
}

abbrev TestChannel : Type 0
TestChannel = MessageChannel lists ℕ ℕ ℕ

abbrev asks : ℕ → Incoming ℕ ℕ ℕ
asks n = system (header n) (request (record { operation = n }))

abbrev holding : List (Incoming ℕ ℕ ℕ) → List (Header × RequestMessage ℕ) → TestChannel
holding others requests = record {
  other = others;
  requests = requests;
  replies = [];
  consensus = [];
}

abbrev stored : ℕ → Header × RequestMessage ℕ
stored n = (header n, record { operation = n })

-- Two requests and a connection are sent, the connection is received first, then a request.
run :
    Run lists
      (new_message_channel lists 128)
      (asks 1 ∷ connected_tx 3 ∷ asks 2 ∷ [])
      ((from_other, connected_tx 3) ∷ (from_requests, asks 1) ∷ [])
      (holding [] (stored 2 ∷ []))
unfolding send recv
run = sends _ (holding [] (stored 1 ∷ [])) _ _ _ _ refl (
    sends _ (holding (connected_tx 3 ∷ []) (stored 1 ∷ [])) _ _ _ _ refl (
      sends _ (holding (connected_tx 3 ∷ []) (stored 1 ∷ stored 2 ∷ [])) _ _ _ _ refl (
        receives _ (holding [] (stored 1 ∷ stored 2 ∷ [])) _ _ _ _ _ refl
          (receives _ (holding [] (stored 2 ∷ [])) _ _ _ _ _ refl (stop _)))))

run-first_out_example :
    asks 1 ∷ asks 2 ∷ [] ≡ asks 1 ∷ queued lists (holding [] (stored 2 ∷ [])) from_requests
unfolding branch_of
run-first_out_example = run-first_out lists 128 from_requests _ _ _ run
