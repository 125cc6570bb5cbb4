-- ===== src/Ordering/Tests.antt =====
-- Sequence numbers and queues at concrete values.
use bafomet.Base.{zero, suc, ◌-◌, ◌+◌, ◌^◌, ◌%◌, ◌≤◌, ◌↔◌, List, [], ◌∷◌, ◌≡◌, refl, arith}
use bafomet.Message.{Header, StoredMessage, ConsensusMessage, prepare, consensus_message_orderable}
use bafomet.Ordering.SeqNo.{index, right, next}
use bafomet.Ordering.Distance.{index_iff}
use bafomet.Ordering.Queue.Aligned.{IsAligned}

abbrev header : Header
header = record { version = 0; from = 1; to = 0; nonce = 9; length = 0; digest = 4; signature = 0 }

abbrev Vote : Type 0
Vote = StoredMessage ConsensusMessage

-- A PREPARE for sequence number 7.
abbrev vote : Vote
vote = record { header = header; message = record { seq = 7; view = 0; kind = prepare 5 } }

abbrev tbo : List (List Vote)
tbo = [] ∷ [] ∷ (vote ∷ []) ∷ []

-- The same queue at sequence number 7.
abbrev now : List (List Vote)
now = (vote ∷ []) ∷ []

next_wraps : next (2 ^ 31 - 1) ≡ 0
unfolding next
next_wraps = refl

index_iff_example : (index 7 5 ≡ right 2) ↔ ((2 ≤ 1500) × (7 % 2 ^ 31 ≡ (5 + 2) % 2 ^ 31))
index_iff_example = index_iff 7 5 2 (omega arith)

tbo-IsAligned : IsAligned 5 tbo
unfolding index
tbo-IsAligned zero = tt
tbo-IsAligned (suc zero) = tt
tbo-IsAligned (suc (suc zero)) = (refl, tt)
tbo-IsAligned (suc (suc (suc k))) = tt

now-IsAligned : IsAligned 7 now
unfolding index
now-IsAligned zero = (refl, tt)
now-IsAligned (suc k) = tt
