-- ===== src/Ordering/Queue/Aligned.antt =====
-- Messages wait in the slot of their distance from the current sequence number
-- (bft/ordering/mod.rs).
use bafomet.Base.{
  ℕ, zero, suc, ◌++◌, ◌==◌, if◌then◌else◌, Bool-cases, some, List, [], ◌∷◌, ◌≡◌, refl, All,
  All-append, All-map, arith, inl, inr, subst,
}
use bafomet.Ordering.SeqNo.{
  SeqNo, IsSeqNo, Orderable, Either, InvalidSeqNo, left, right, index, next, sequence_number,
}
use bafomet.Ordering.Distance.{index-next}
use bafomet.Ordering.Queue.{tbo_pop_message, tbo_queue_message, tbo_advance_message_queue}
use bafomet.Ordering.Queue.Slots.{
  slot, slot-tbo_pop_message, slot-tbo_queue_message, slot-tbo_advance_message_queue,
}
use bafomet.Message.{StoredMessage}

module _ {ℓ} {M : Type ℓ} ⦃o : Orderable M⦄ where
  -- `m` is `k` steps ahead of `curr`.
  abbrev pub IsAt : SeqNo → ℕ → StoredMessage M → Type 0
  IsAt curr k m = index (sequence_number m.message) curr ≡ right k

  -- Every queued message stands in the slot of its distance from the current sequence number.
  abbrev pub IsAligned : SeqNo → List (List (StoredMessage M)) → Type 0
  IsAligned curr tbo = (k : ℕ) → All (IsAt curr k) (slot tbo k)

  -- Queueing a message keeps the queue aligned.
  pub tbo_queue_message-IsAligned :
      (curr : SeqNo) (tbo : List (List (StoredMessage M))) (m : StoredMessage M)
      → IsAligned curr tbo
      → IsAligned curr (tbo_queue_message curr tbo m)
  tbo_queue_message-IsAligned curr tbo m h k =
      rw (slot-tbo_queue_message curr tbo m k) (go (index (sequence_number m.message) curr) refl)
    where
      go :
          (e : Either InvalidSeqNo ℕ)
          → index (sequence_number m.message) curr ≡ e
          → All (IsAt curr k) (elim e [
            | right i ↦ if i == k then slot tbo k ++ m ∷ [] else slot tbo k
            | left _ ↦ slot tbo k
          ])
      go (left _) e = h k
      go (right i) e = elim (Bool-cases (i == k)) [
        | inl same ↦
            rw same (All-append (IsAt curr k) (slot tbo k) (m ∷ []) (h k) (ground (arith, e), tt))
        | inr other ↦ rw other (h k)
      ]

  -- Advancing to the next sequence number keeps the queue aligned.
  pub tbo_advance_message_queue-IsAligned :
      (curr : SeqNo) (tbo : List (List (StoredMessage M)))
      → IsSeqNo curr
      → IsAligned curr tbo
      → IsAligned (next curr) (tbo_advance_message_queue tbo)
  tbo_advance_message_queue-IsAligned curr tbo hs h k = rw (slot-tbo_advance_message_queue tbo k) (
      All-map (slot tbo (suc k)) (λ m e. index-next (sequence_number m.message) curr k hs e)
        (h (suc k)))

  -- What is popped from an aligned queue is for the current sequence number, up to the sign bit,
  -- and the rest stays aligned.
  pub tbo_pop_message-IsAligned :
      (curr : SeqNo) (tbo : List (List (StoredMessage M))) (m : StoredMessage M)
      → IsAligned curr tbo
      → (tbo_pop_message tbo).0 ≡ some m
      → IsAt curr 0 m × IsAligned curr (tbo_pop_message tbo).1
  tbo_pop_message-IsAligned curr tbo m h f = elim (slot-tbo_pop_message tbo) [
    | inl (e, _, _) ↦ absurd (cc)
    | inr (m', e, head, same) ↦ (
      let p : m' ≡ m = cc in subst (IsAt curr 0) p (rw head at (h 0)).0,
      elim [ zero ↦ (rw head at (h 0)).1 | suc k ↦ rw (same k) (h (suc k)) ],
    )
  ]
