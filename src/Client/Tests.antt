-- ===== src/Client/Tests.antt =====
-- A client of four replicas at concrete replies.
use bafomet.Base.{ℕ, none, some, [], ◌∷◌, All, get, ◌≡◌, ◌≢◌, refl, arith}
use bafomet.Message.{Digest, Header, ReplyMessage}
use bafomet.Core.Params.{SystemParams}
use bafomet.Client.Waiting.{ClientData}
use bafomet.Client.Waiting.Schedules.{
  check, register, respond, wake, merges, run, IsServed, IsLost, lost_order, run-merges,
}
use bafomet.Client.Votes.{Receiver, receive_reply}
use bafomet.Client.Votes.Backed.{IsBacked, IsDelivered, receive_reply-IsDelivered}

abbrev params : SystemParams
params = record { n = 4; f = 1 }

-- A reply whose payload has the digest given.
abbrev header : Digest → Header
header digest = record {
  version = 0;
  from = 2;
  to = 1000;
  nonce = 5;
  length = 0;
  digest = digest;
  signature = 0;
}

abbrev reply : ReplyMessage ℕ
reply = record { digest = 5; payload = 42 }

-- One reply to request 5 with the payload of digest 8 has come in.
abbrev receiver : Receiver
receiver = record { earlier = 100; votes = (5, record { count = 1; digest = 8 }) ∷ [] }

receiver-IsBacked : IsBacked ((5, 8) ∷ []) receiver.votes
unfolding get
receiver-IsBacked d v e = ground (arith, e)

receive_reply-IsDelivered_example :
    IsBacked ((5, 8) ∷ (5, 8) ∷ []) (receive_reply 30 params 110 (header 8) reply receiver).1.votes
    × IsDelivered params
        ((5, 8) ∷ (5, 8) ∷ [])
        (header 8)
        reply
        (receive_reply 30 params 110 (header 8) reply receiver).0
receive_reply-IsDelivered_example =
    receive_reply-IsDelivered 30 params 110 (header 8) reply receiver ((5, 8) ∷ [])
      receiver-IsBacked

first-found : get 5 receiver.votes ≡ some (record { count = 1; digest = 8 })
unfolding get
first-found = refl

abbrev the_payload : ℕ
the_payload = 42

abbrev nothing_yet : ClientData ℕ
nothing_yet = record { wakers = []; ready = []; woken = [] }

no_payload : get 5 nothing_yet.ready ≡ none
unfolding get
no_payload = refl

no_waker : get 5 nothing_yet.wakers ≡ none
unfolding get
no_waker = refl

run-merges_example :
    IsLost 5 3 the_payload nothing_yet
      (run 5 3 the_payload lost_order (record { taken = none; shared = nothing_yet }))
    × All
        (λ s.
          s ≢ lost_order
          → IsServed 5 3 the_payload nothing_yet
              (run 5 3 the_payload s (record { taken = none; shared = nothing_yet })))
        (merges (check ∷ register ∷ []) (respond ∷ wake ∷ []))
run-merges_example = run-merges 5 3 the_payload nothing_yet no_payload no_waker
