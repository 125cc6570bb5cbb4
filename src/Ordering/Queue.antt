-- ===== src/Ordering/Queue.antt =====
-- The three functions on an internal queue of a `TboQueue` (bft/ordering/mod.rs). Slot `i` of the
-- outer queue holds the messages that are `i` steps ahead of the current sequence number.
pub mod Slots
pub mod Aligned
use bafomet.Base.{
  ℕ, ◌+◌, ◌-◌, leb, if◌then◌else◌, Option, none, some, List, [], ◌∷◌, ◌++◌, length, set, get_or,
  replicate,
}
use bafomet.Ordering.SeqNo.{SeqNo, Orderable, left, right, index, sequence_number}
use bafomet.Message.{StoredMessage}

module _ {ℓ} {M : Type ℓ} where
  -- `tbo[0].pop_front()` on a queue with a first slot.
  pop_first :
      List (StoredMessage M)
      → List (List (StoredMessage M))
      → Option (StoredMessage M) × List (List (StoredMessage M))
  pop_first [] rest = (none, [] ∷ rest)
  pop_first (m ∷ slot) rest = (some m, slot ∷ rest)

  unfoldable pub tbo_pop_message :
      List (List (StoredMessage M)) → Option (StoredMessage M) × List (List (StoredMessage M))
  unfolding pop_first
  tbo_pop_message [] = (none, [])
  tbo_pop_message (slot ∷ rest) = pop_first slot rest

  -- Empty slots are added up to slot `i`, and the message goes to the back of that slot.
  extend_to : ℕ → List (List (StoredMessage M)) → List (List (StoredMessage M))
  extend_to i tbo = if leb (length tbo) i then tbo ++ replicate (i - length tbo + 1) [] else tbo

  push_slot : ℕ → StoredMessage M → List (List (StoredMessage M)) → List (List (StoredMessage M))
  push_slot i m tbo = set tbo i (get_or tbo i [] ++ m ∷ [])

  unfoldable pub tbo_queue_message :
      ⦃o : Orderable M⦄
      → SeqNo
      → List (List (StoredMessage M))
      → StoredMessage M
      → List (List (StoredMessage M))
  unfolding extend_to push_slot
  tbo_queue_message curr_seq tbo m = elim (index (sequence_number m.message) curr_seq) [
    | right i ↦ push_slot i m (extend_to i tbo)
    | left _ ↦ tbo
  ]

  unfoldable pub tbo_advance_message_queue :
      List (List (StoredMessage M)) → List (List (StoredMessage M))
  tbo_advance_message_queue [] = []
  tbo_advance_message_queue (slot ∷ rest) = rest ++ [] ∷ []
