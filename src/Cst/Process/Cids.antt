-- ===== src/Cst/Process/Cids.antt =====
-- The latest number that is found was replied by more than f replicas (bft/cst/mod.rs).
use bafomet.Base.{
  ℕ, ◌+◌, ◌≤◌, ◌<◌, ◌==◌, List, [], ◌∷◌, length, All, select, ◌≡◌, refl, arith, Ordering, inl, inr,
  ◌⊎◌, ◌≢◌, subst, sym, ◌∙◌,
}
use bafomet.Collections.{OrderedMap}
use bafomet.Ordering.SeqNo.{SeqNo, IsSeqNo, cmp}
use bafomet.Message.{Header}
use bafomet.Message.System.{CstMessage, reply_latest_consensus_seq}
use bafomet.Core.Params.{quorum}
use bafomet.Core.View.{ViewInfo}
use bafomet.Log.Store.{StoredRequest, Log}
use bafomet.Cst.State.{
  init, receiving_cid, CollabStateTransfer, running, seq_no, ask_latest_cid, message,
}
use bafomet.Cst.Process.{Processed, count_cid, check_cids, process_message}

-- How often a number was replied.
abbrev pub times : SeqNo → List SeqNo → ℕ
times seq cids = length (select (λ d. d == seq) cids)

times-above : (seq : SeqNo) (cids : List SeqNo) → All (λ d. d < seq) cids → times seq cids ≡ 0
times-above seq [] h = refl
times-above seq (d ∷ cids) h = ground (arith, times-above seq cids h.1)

All-lt : (a b : ℕ) (cids : List SeqNo) → a < b → All (λ d. d ≤ a) cids → All (λ d. d < b) cids
All-lt a b [] e h = tt
All-lt a b (d ∷ cids) e h = (omega (arith, h.0), All-lt a b cids e h.1)

All-le : (a b : ℕ) (cids : List SeqNo) → a ≤ b → All (λ d. d ≤ a) cids → All (λ d. d ≤ b) cids
All-le a b [] e h = tt
All-le a b (d ∷ cids) e h = (omega (arith, h.0), All-le a b cids e h.1)

cmp-cases :
    (a b : ℕ)
    → IsSeqNo a
    → IsSeqNo b
    → (a < b) × (cmp a b ≡ Ordering.lt)
      ⊎ (a ≡ b) × (cmp a b ≡ Ordering.eq)
      ⊎ (b < a) × (cmp a b ≡ Ordering.gt)
unfolding cmp
cmp-cases a b ha hb = ground arith

module _ {S O : Type 0} where
  -- The protocol remembers the largest number replied, and how often it was.
  abbrev pub IsTally : CollabStateTransfer S O → List SeqNo → Type 0
  IsTally c cids =
      IsSeqNo c.latest_cid
      × All (λ d. d ≤ c.latest_cid) cids
      × (c.latest_cid_count ≡ times c.latest_cid cids)

  pub count_cid-IsTally :
      (c : CollabStateTransfer S O) (cids : List SeqNo) (seq : SeqNo)
      → IsSeqNo seq
      → IsTally c cids
      → IsTally (count_cid seq c) (seq ∷ cids)
  unfolding count_cid
  count_cid-IsTally c cids seq v (used, largest, counted) =
      elim (cmp-cases seq c.latest_cid v used) [
        | inl (below, e) ↦
            let same : c ≡ count_cid seq c = ground (arith, e) in
            subst (λ c'. IsTally c' (seq ∷ cids)) same
              (used, (omega (arith, below), largest), ground (arith, below, counted))
        | inr (inl (equal, e)) ↦
            let more : record c { latest_cid_count = c.latest_cid_count + 1 } ≡ count_cid seq c =
              ground (arith, e) in
            subst (λ c'. IsTally c' (seq ∷ cids)) more
              (used, (omega (arith, equal), largest), ground (arith, equal, counted))
        | inr (inr (above, e)) ↦
            let first : record c { latest_cid = seq; latest_cid_count = 1 } ≡ count_cid seq c =
              ground (arith, e) in
            subst (λ c'. IsTally c' (seq ∷ cids)) first
              (
                v,
                (omega arith, All-le c.latest_cid seq cids (omega (arith, above)) largest),
                ground (arith, times-above seq cids (All-lt c.latest_cid seq cids above largest)),
              )
      ]

  IsTally-same :
      (c c' : CollabStateTransfer S O) (cids : List SeqNo)
      → c'.latest_cid ≡ c.latest_cid
      → c'.latest_cid_count ≡ c.latest_cid_count
      → IsTally c cids
      → IsTally c' cids
  IsTally-same c c' cids p q (used, largest, counted) =
      subst (λ s. IsSeqNo s × All (λ d. d ≤ s) cids × (c'.latest_cid_count ≡ times s cids)) (sym p)
        (used, largest, q ∙ counted)

  -- What the protocol does with the numbers of a quorum, and with fewer.
  abbrev pub IsOutcome : ViewInfo → List SeqNo → Processed S O → Type 0
  IsOutcome view cids r =
      (length cids ≢ quorum view.params)
        × (r.status ≡ running)
        × (r.cst.phase ≡ receiving_cid (length cids))
      ⊎ (length cids ≡ quorum view.params)
        × (r.cst.phase ≡ init)
        × (view.params.f < times r.cst.latest_cid cids)
        × (r.status ≡ seq_no r.cst.latest_cid)
      ⊎ (length cids ≡ quorum view.params)
        × (r.cst.phase ≡ init)
        × (times r.cst.latest_cid cids ≤ view.params.f)
        × (r.status ≡ ask_latest_cid)

  check_cids-IsOutcome :
      (view : ViewInfo) (c : CollabStateTransfer S O) (cids : List SeqNo)
      → IsTally c cids
      → IsTally (check_cids view (length cids) c).cst cids
        × IsOutcome view cids (check_cids view (length cids) c)
  unfolding check_cids
  check_cids-IsOutcome view c cids t = (
    IsTally-same c (check_cids view (length cids) c).cst cids (ground arith) (ground arith) t,
    ground (arith, t.2),
  )

module _ {S O : Type 0} {R : OrderedMap (StoredRequest O)} (view : ViewInfo) where
  -- With each reply that has the number expected, the protocol remembers the largest of the numbers
  -- replied so far and how often it was. It goes on up to a quorum of replies; then it returns the
  -- largest number if more than f replies have it, and asks again if not.
  pub process_message-IsTally :
      (c : CollabStateTransfer S O) (own cid : SeqNo) (l : Log S O R) (h : Header)
      (m : CstMessage S O) (cids : List SeqNo)
      → IsSeqNo cid
      → c.phase ≡ receiving_cid (length cids)
      → m.seq ≡ c.cst_seq
      → m.kind ≡ reply_latest_consensus_seq cid
      → IsTally c cids
      → IsTally (process_message view c own l (message h m)).cst (cid ∷ cids)
        × IsOutcome view (cid ∷ cids) (process_message view c own l (message h m))
  unfolding process_message
  process_message-IsTally c own cid l h m cids v p e k t =
      let step : process_message view c own l (message h m)
          ≡ check_cids view (length (cid ∷ cids)) (count_cid cid c) =
        ground (arith, p, e, k) in
      subst (λ r. IsTally r.cst (cid ∷ cids) × IsOutcome view (cid ∷ cids) r) (sym step)
        (check_cids-IsOutcome view (count_cid cid c) (cid ∷ cids)
          (count_cid-IsTally c cids cid v t))
