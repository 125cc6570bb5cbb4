-- ===== src/Ordering/Queue/Slots.antt =====
-- The queues of early messages, seen slot by slot (bft/ordering/mod.rs).
use bafomet.Base.{
  ℕ, zero, suc, ◌+◌, ◌-◌, ◌<◌, ◌==◌, if◌then◌else◌, none, some, List, [], ◌∷◌, ◌++◌, ◌≡◌, refl,
  length, set, get_or, replicate, arith, length-append, length-replicate, ◌⊎◌, inl, inr,
}
use bafomet.Ordering.SeqNo.{
  SeqNo, Orderable, Either, left, right, index, sequence_number, InvalidSeqNo,
}
use bafomet.Ordering.Queue.{
  tbo_pop_message, tbo_queue_message, tbo_advance_message_queue, extend_to, push_slot,
}
use bafomet.Message.{StoredMessage}

-- The messages `k` steps ahead; none where the queue has no such slot.
abbrev pub slot {ℓ} : {M : Type ℓ} → List (List (StoredMessage M)) → ℕ → List (StoredMessage M)
slot tbo k = get_or tbo k []

module _ {ℓ} {A : Type ℓ} where
  get_or-append_replicate :
      (xs : List (List A)) (n j : ℕ) → get_or (xs ++ replicate n []) j [] ≡ get_or xs j []
  get_or-append_replicate [] zero j = refl
  get_or-append_replicate [] (suc n) zero = refl
  get_or-append_replicate [] (suc n) (suc j) = get_or-append_replicate [] n j
  get_or-append_replicate (x ∷ xs) n zero = refl
  get_or-append_replicate (x ∷ xs) n (suc j) = get_or-append_replicate xs n j

  pub get_or-set :
      (xs : List A) (i j : ℕ) (v d : A)
      → i < length xs
      → get_or (set xs i v) j d ≡ (if i == j then v else get_or xs j d)
  get_or-set [] i j v d h = elim h [ ]
  get_or-set (x ∷ xs) zero zero v d h = refl
  get_or-set (x ∷ xs) zero (suc j) v d h = ground arith
  get_or-set (x ∷ xs) (suc i) zero v d h = ground arith
  get_or-set (x ∷ xs) (suc i) (suc j) v d h = ground (arith, get_or-set xs i j v d (omega arith))

module _ {ℓ} {M : Type ℓ} where
  slot-extend_to :
      (tbo : List (List (StoredMessage M))) (i j : ℕ) → slot (extend_to i tbo) j ≡ slot tbo j
  unfolding extend_to
  slot-extend_to tbo i j = ground (arith, get_or-append_replicate tbo (i - length tbo + 1) j)

  length-extend_to : (tbo : List (List (StoredMessage M))) (i : ℕ) → i < length (extend_to i tbo)
  unfolding extend_to
  length-extend_to tbo i = ground (
    arith,
    length-append tbo (replicate (i - length tbo + 1) []),
    length-replicate {A = List (StoredMessage M)} (i - length tbo + 1) [],
  )

  slot-push_slot :
      (tbo : List (List (StoredMessage M))) (m : StoredMessage M) (i j : ℕ)
      → slot (push_slot i m (extend_to i tbo)) j
        ≡ (if i == j then slot tbo j ++ m ∷ [] else slot tbo j)
  unfolding push_slot
  slot-push_slot tbo m i j = ground (
    arith,
    get_or-set (extend_to i tbo) i j (slot (extend_to i tbo) i ++ m ∷ []) []
        (length-extend_to tbo i),
    slot-extend_to tbo i j,
    slot-extend_to tbo i i,
  )

  -- Popping takes the oldest message of the first slot, and touches no other.
  pub slot-tbo_pop_message :
      (tbo : List (List (StoredMessage M)))
      → ((tbo_pop_message tbo).0 ≡ none)
          × (slot tbo 0 ≡ [])
          × ((j : ℕ) → slot (tbo_pop_message tbo).1 j ≡ slot tbo j)
        ⊎ (m : StoredMessage M) × ((tbo_pop_message tbo).0 ≡ some m)
          × (slot tbo 0 ≡ m ∷ slot (tbo_pop_message tbo).1 0)
          × ((j : ℕ) → slot (tbo_pop_message tbo).1 (suc j) ≡ slot tbo (suc j))
  unfolding tbo_pop_message
  slot-tbo_pop_message [] = inl (refl, refl, λ j. refl)
  slot-tbo_pop_message ([] ∷ rest) = inl (refl, refl, λ j. refl)
  slot-tbo_pop_message ((m ∷ ms) ∷ rest) = inr (m, refl, refl, λ j. refl)

  slot-append_empty :
      (tbo : List (List (StoredMessage M))) (j : ℕ) → slot (tbo ++ [] ∷ []) j ≡ slot tbo j
  slot-append_empty tbo j = get_or-append_replicate tbo 1 j

  -- Advancing moves every slot one step nearer, and drops the first.
  pub slot-tbo_advance_message_queue :
      (tbo : List (List (StoredMessage M))) (j : ℕ)
      → slot (tbo_advance_message_queue tbo) j ≡ slot tbo (suc j)
  unfolding tbo_advance_message_queue
  slot-tbo_advance_message_queue [] j = refl
  slot-tbo_advance_message_queue (s ∷ rest) j = slot-append_empty rest j

module _ {ℓ} {M : Type ℓ} ⦃o : Orderable M⦄ where
  -- A message goes to the back of the slot of its index, and nowhere if it has none; every other
  -- slot is left as it is.
  pub slot-tbo_queue_message :
      (curr : SeqNo) (tbo : List (List (StoredMessage M))) (m : StoredMessage M) (j : ℕ)
      → slot (tbo_queue_message curr tbo m) j ≡ elim (index (sequence_number m.message) curr) [
        | right i ↦ if i == j then slot tbo j ++ m ∷ [] else slot tbo j
        | left _ ↦ slot tbo j
      ]
  unfolding tbo_queue_message
  slot-tbo_queue_message curr tbo m j = go (index (sequence_number m.message) curr)
    where
      go :
          (e : Either InvalidSeqNo ℕ)
          → slot (elim e [ right i ↦ push_slot i m (extend_to i tbo) | left _ ↦ tbo ]) j ≡ elim e [
            | right i ↦ if i == j then slot tbo j ++ m ∷ [] else slot tbo j
            | left _ ↦ slot tbo j
          ]
      go (right i) = slot-push_slot tbo m i j
      go (left _) = refl
