-- ===== src/Consensus/State/Install.antt =====
-- Skipping to another instance (bft/consensus/mod.rs, `install_sequence_number`).
use bafomet.Base.{
  ℕ, zero, suc, ◌+◌, ◌≤◌, ◌<◌, true, leb, Result, ok, err, panic, [], ◌∷◌, length, drop, All-map,
  ◌≡◌, refl, ap, ◌∙◌, subst, arith, Bool-cases, inl, inr,
}
use bafomet.Ordering.SeqNo.{SeqNo, IsSeqNo, Either, InvalidSeqNo, left, right, index}
use bafomet.Ordering.Distance.{index_iff}
use bafomet.Ordering.Queue.Slots.{slot}
use bafomet.Ordering.Queue.Aligned.{IsAligned}
use bafomet.Message.{consensus_message_orderable}
use bafomet.Consensus.Tbo.{Queues}
use bafomet.Consensus.Tbo.Valid.{IsValid}
use bafomet.Consensus.State.{Consensus, drain, install_sequence_number}

slot-drop : (q : Queues) (n k : ℕ) → slot (drop n q) k ≡ slot q (n + k)
slot-drop q zero k = let e : k ≡ 0 + k = omega arith in ap (slot q) e
slot-drop [] (suc n) k = refl
slot-drop (s ∷ q) (suc n) k =
    let e : suc (n + k) ≡ suc n + k = omega arith in slot-drop q n k ∙ ap (slot (s ∷ q)) e

-- What is `n + k` steps ahead of `s` is `k` steps ahead of the number that is `n` steps ahead.
index-skip :
    (t s s' n k : ℕ)
    → IsSeqNo s
    → IsSeqNo s'
    → index s' s ≡ right n
    → index t s ≡ right (n + k)
    → index t s' ≡ right k
index-skip t s s' n k hs hs' e f =
    let a = (index_iff s' s n hs).0 e in
    let b = (index_iff t s (n + k) hs).0 f in (index_iff t s' k hs').1 (omega arith, omega arith)

drop-IsAligned :
    (q : Queues) (s s' n : ℕ)
    → IsSeqNo s
    → IsSeqNo s'
    → index s' s ≡ right n
    → IsAligned s q
    → IsAligned s' (drop n q)
drop-IsAligned q s s' n hs hs' e v k =
    rw (slot-drop q n k)
      (All-map (slot q (n + k)) (λ m f. index-skip m.message.seq s s' n k hs hs' e f) (v (n + k)))

abbrev Keeps : SeqNo → Result Consensus → Type 0
Keeps seq (ok c) = IsValid c.tbo × (c.tbo.curr_seq ≡ seq)
Keeps seq (err _) = Unit
Keeps seq panic = Unit

module _ (c : Consensus) (seq : SeqNo) (h : IsSeqNo seq) (v : IsValid c.tbo) where
  cleared-IsValid : IsValid (record c.tbo {
    curr_seq = seq;
    get_queue = true;
    pre_prepares = [];
    prepares = [];
    commits = [];
  })
  cleared-IsValid = record {
    in_use = h;
    proposals = λ k. tt;
    votes = λ k. tt;
    commitments = λ k. tt;
  }

  drained-IsValid :
      (n : ℕ)
      → index seq c.tbo.curr_seq ≡ right n
      → IsValid (record c.tbo {
        curr_seq = seq;
        get_queue = true;
        pre_prepares = drop n c.tbo.pre_prepares;
        prepares = drop n c.tbo.prepares;
        commits = drop n c.tbo.commits;
      })
  drained-IsValid n e = record {
    in_use = h;
    proposals = drop-IsAligned c.tbo.pre_prepares c.tbo.curr_seq seq n v.in_use h e v.proposals;
    votes = drop-IsAligned c.tbo.prepares c.tbo.curr_seq seq n v.in_use h e v.votes;
    commitments = drop-IsAligned c.tbo.commits c.tbo.curr_seq seq n v.in_use h e v.commitments;
  }

  keeps :
      (i : Either InvalidSeqNo ℕ)
      → index seq c.tbo.curr_seq ≡ i
      → Keeps seq (install_sequence_number c seq)
  unfolding install_sequence_number drain
  keeps (left x) e = rw (e, install_sequence_number) (cleared-IsValid, refl)
  keeps (right zero) e =
      rw (e, install_sequence_number)
        (v, omega (arith, (index_iff seq c.tbo.curr_seq 0 v.in_use).0 e, v.in_use))
  keeps (right (suc n)) e = elim (Bool-cases (leb (length c.tbo.pre_prepares) (suc n))) [
    | inl far ↦ ground (arith, cleared-IsValid)
    | inr near ↦ grind (arith, drained-IsValid (suc n) e)
  ]

-- Whatever number is installed, an instance number in use leaves the queues valid: the messages
-- that stay are those for the new instance and later ones.
pub install_sequence_number-IsValid :
    (c c' : Consensus) (seq : SeqNo)
    → IsSeqNo seq
    → IsValid c.tbo
    → install_sequence_number c seq ≡ ok c'
    → IsValid c'.tbo × (c'.tbo.curr_seq ≡ seq)
install_sequence_number-IsValid c c' seq h v e =
    subst (Keeps seq) e (keeps c seq h v (index seq c.tbo.curr_seq) refl)

-- The number of slots that are dropped from the proposals may be more than the slots of the votes:
-- then the call panics, although the queues are valid.
pub install_sequence_number_panics :
    (c : Consensus) (seq : SeqNo) (n : ℕ)
    → index seq c.tbo.curr_seq ≡ right (suc n)
    → suc n < length c.tbo.pre_prepares
    → length c.tbo.prepares ≤ n
    → install_sequence_number c seq ≡ panic
unfolding install_sequence_number drain
install_sequence_number_panics c seq n e far near = ground arith
