-- ===== src/Consensus/Process/Proposals.antt =====
-- Which proposals a replica can take in (bft/consensus/mod.rs).
use bafomet.Base.{
  ℕ, ◌≤◌, Bool, true, false, not, ◌&&◌, ◌||◌, ◌==◌, ltb, Bool-cases, inl, inr, ◌⊎◌, Result, ok, err,
  panic, List, [], ◌∷◌, ◌++◌, length, length-append, length-drop, drop, select, ◌≡◌, refl, arith,
}
use bafomet.Collections.{OrderedMap}
use bafomet.Message.{
  NodeId, Digest, Header, ConsensusMessage, ConsensusMessageKind, pre_prepare, prepare, commit,
}
use bafomet.Core.View.{ViewInfo}
use bafomet.Log.Store.{StoredRequest, Log, has_request, insert_consensus}
use bafomet.Log.Finalize.Collect.{elem}
use bafomet.Consensus.State.{
  ProtoPhase, init, pre_preparing, preparing_requests, preparing, committing, Consensus,
  copy_digests,
}
use bafomet.Consensus.Process.{Processed, process_message}

elem-append : (d : ℕ) (xs ys : List ℕ) → elem d (xs ++ ys) ≡ (elem d xs || elem d ys)
elem-append d [] ys = refl
elem-append d (x ∷ xs) ys = ground (arith, elem-append d xs ys)

elem-select :
    (p : ℕ → Bool) (d : ℕ) (xs : List ℕ)
    → elem d xs ≡ true
    → p d ≡ true
    → elem d (select p xs) ≡ true
elem-select p d [] h k = cc
elem-select p d (x ∷ xs) h k = elim (Bool-cases (x == d)) [
  | inl e ↦ let same : x ≡ d = ground arith in let px : p x ≡ true = rw same k in ground (arith, px)
  | inr e ↦ ground (arith, elem-select p d xs)
]

-- A proposal for the current instance and view with more digests than a batch can hold.
abbrev pub is_oversized :
    ViewInfo → Consensus → ConsensusMessage → ProtoPhase → ConsensusMessageKind → Bool
is_oversized view c m pre_preparing (pre_prepare ds) =
    m.view == view.seq && m.seq == c.tbo.curr_seq && ltb (length c.current) (length ds)
is_oversized view c m _ _ = false

-- The batch in progress fits into the buffer of digests.
abbrev pub HasRoom : Consensus → Type 0
HasRoom c = c.batch_size ≤ length c.current

module _ {S O : Type 0} {R : OrderedMap (StoredRequest O)} (me : NodeId) (view : ViewInfo) where
  abbrev Answers : Consensus → Bool → Result (Processed S O R) → Type 0
  Answers c oversized (ok r) =
      (oversized ≡ false) × HasRoom r.consensus × (length r.consensus.current ≡ length c.current)
  Answers c oversized (err _) = ⊥
  Answers c oversized panic = oversized ≡ true

  answers :
      (p : ProtoPhase) (k : ConsensusMessageKind) (c : Consensus) (l : Log S O R) (h : Header)
      (m : ConsensusMessage)
      → c.phase ≡ p
      → m.kind ≡ k
      → HasRoom c
      → Answers c (is_oversized view c m p k) (process_message me view c l h m)
  unfolding process_message copy_digests
  answers init (pre_prepare x) c l h m e f v = rw (e, f, process_message) (refl, v, refl)
  answers init (prepare x) c l h m e f v = rw (e, f, process_message) (refl, v, refl)
  answers init (commit x) c l h m e f v = rw (e, f, process_message) (refl, v, refl)
  answers preparing_requests (pre_prepare x) c l h m e f v =
      rw (e, f, process_message) (refl, v, refl)
  answers preparing_requests (prepare x) c l h m e f v = rw (e, f, process_message) (refl, v, refl)
  answers preparing_requests (commit x) c l h m e f v = rw (e, f, process_message) (refl, v, refl)
  answers pre_preparing (pre_prepare x) c l h m e f v =
      ground (arith, length-append x (drop (length x) c.current), length-drop (length x) c.current)
  answers pre_preparing (prepare x) c l h m e f v = rw (e, f, process_message) (refl, v, refl)
  answers pre_preparing (commit x) c l h m e f v = rw (e, f, process_message) (refl, v, refl)
  answers (preparing i) (pre_prepare x) c l h m e f v = rw (e, f, process_message) (refl, v, refl)
  answers (preparing i) (prepare x) c l h m e f v = ground arith
  answers (preparing i) (commit x) c l h m e f v = rw (e, f, process_message) (refl, v, refl)
  answers (committing i) (pre_prepare x) c l h m e f v = rw (e, f, process_message) (refl, v, refl)
  answers (committing i) (prepare x) c l h m e f v = rw (e, f, process_message) (refl, v, refl)
  answers (committing i) (commit x) c l h m e f v = ground arith

  -- A message is processed in every case but one: a proposal for the current instance and view that
  -- holds more digests than the buffer makes the replica panic. Otherwise the batch in progress
  -- still fits into the buffer, whose size stays.
  pub process_message-HasRoom :
      (c : Consensus) (l : Log S O R) (h : Header) (m : ConsensusMessage)
      → HasRoom c
      → ((is_oversized view c m c.phase m.kind ≡ true) × (process_message me view c l h m ≡ panic))
        ⊎ ((r : Processed S O R) × (is_oversized view c m c.phase m.kind ≡ false)
            × (process_message me view c l h m ≡ ok r)
            × HasRoom r.consensus
            × (length r.consensus.current ≡ length c.current))
  process_message-HasRoom c l h m v =
      go (process_message me view c l h m) refl (answers c.phase m.kind c l h m refl refl v)
    where
      go :
          (x : Result (Processed S O R))
          → process_message me view c l h m ≡ x
          → Answers c (is_oversized view c m c.phase m.kind) x
          → ((is_oversized view c m c.phase m.kind ≡ true)
              × (process_message me view c l h m ≡ panic))
            ⊎ ((r : Processed S O R) × (is_oversized view c m c.phase m.kind ≡ false)
                × (process_message me view c l h m ≡ ok r)
                × HasRoom r.consensus
                × (length r.consensus.current ≡ length c.current))
      go (ok r) e a = inr (r, a.0, e, a.1, a.2)
      go (err x) e a = absurd a
      go panic e a = inl (a, e)

  -- A proposal that is shorter than the buffer is held up by what the buffer holds behind it: if one
  -- of those old digests is of no known request, the replica waits for requests, whether or not it
  -- has all that were proposed.
  pub process_message_stale :
      (c : Consensus) (l : Log S O R) (h : Header) (m : ConsensusMessage) (ds : List Digest)
      (d : Digest) (r : Processed S O R)
      → c.phase ≡ pre_preparing
      → m.kind ≡ pre_prepare ds
      → m.view ≡ view.seq
      → m.seq ≡ c.tbo.curr_seq
      → elem d (drop (length ds) c.current) ≡ true
      → has_request l d ≡ false
      → process_message me view c l h m ≡ ok r
      → (r.consensus.phase ≡ preparing_requests) × (elem d r.consensus.missing_requests ≡ true)
  unfolding process_message copy_digests insert_consensus has_request
  process_message_stale c l h m ds d r e k vw sq old none_yet done =
      let current = ds ++ drop (length ds) c.current in
      let unknown : Digest → Bool = λ x. not (has_request l x) in
      ground (
        arith,
        elem-append d ds (drop (length ds) c.current),
        elem-select unknown d current,
        elem-append d c.missing_requests (select unknown current),
      )
