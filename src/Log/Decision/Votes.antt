-- ===== src/Log/Decision/Votes.antt =====
-- The proofs of a `DecisionLog` rest on enough votes (bft/consensus/log/mod.rs).
use bafomet.Base.{
  ℕ, ◌*◌, ◌^◌, ◌≤◌, ◌<◌, Bool, ◌&&◌, ◌==◌, if◌then◌else◌, Bool-cases, ==_iff, inl, inr, Option,
  none, some, Option-cases, ok, >>=-eq-ok, List, [], ◌∷◌, ◌++◌, length, reverse, select, All,
  Ordering, ◌≡◌, ◌≢◌, ◌∙◌, refl, ap, subst, arith,
}
use bafomet.Ordering.SeqNo.{SeqNo}
use bafomet.Core.Params.{quorum}
use bafomet.Core.View.{ViewInfo}
use bafomet.Log.Types.{DecisionLog, Proof}
use bafomet.Log.Decision.{
  Stored, find_pre_prepare, votes_of, last_votes, enough, proof_of, decision_of, last_decision,
}

-- A message of instance `seq` and view `view`.
abbrev pub is_vote : SeqNo → SeqNo → Stored → Bool
is_vote seq view m = m.message.seq == seq && m.message.view == view

-- How many messages of instance `seq` and view `view` a list holds.
abbrev pub votes : SeqNo → SeqNo → List Stored → ℕ
votes seq view ms = length (select (is_vote seq view) ms)

-- The votes already counted that are of the view that the loop ends in.
abbrev counted : Option SeqNo → ℕ → SeqNo → ℕ
counted none count v = count
counted (some w) count v = if w == v then count else 0

-- Every sequence number is an `i32`.
abbrev pub AreI32 : List Stored → Type 0
AreI32 = All (λ m. m.message.seq < 2 ^ 32)

-- All messages of the list are of instance `seq` and view `view`.
abbrev pub AreVotes : SeqNo → SeqNo → List Stored → Type 0
AreVotes seq view = All (λ m. (m.message.seq ≡ seq) × (m.message.view ≡ view))

-- The newest votes of instance `seq` in a log, of one view: `votes` stand together in the log, the
-- newest first, and all newer messages are of other instances.
abbrev pub IsNewestRun : SeqNo → List Stored → List Stored → Type 0
IsNewestRun seq log votes =
    (view : SeqNo) × (newer : List Stored) × (older : List Stored) × (reverse log
      ≡ newer ++ (votes ++ older))
    × All (λ m. m.message.seq ≢ seq) newer
    × AreVotes seq view votes

votes_of-AreVotes :
    (seq view : SeqNo) (ms : List Stored)
    → (older : List Stored) × (ms ≡ votes_of seq view ms ++ older)
      × AreVotes seq view (votes_of seq view ms)
unfolding votes_of
votes_of-AreVotes seq view [] = ([], refl, tt)
votes_of-AreVotes seq view (m ∷ ms) = elim (Bool-cases (is_vote seq view m)) [
  | inl e ↦
      let (older, split, are) = votes_of-AreVotes seq view ms in
      rw e (older, ap (λ l. m ∷ l) split, (ground (arith, e), are))
  | inr e ↦ rw e (m ∷ ms, refl, tt)
]

-- The runs that `last_votes` finds in a log that is read from its newest message on.
last_votes-AreVotes :
    (seq : SeqNo) (ms : List Stored)
    → (view : SeqNo) × (newer : List Stored) × (older : List Stored) × (ms
        ≡ newer ++ (last_votes seq ms ++ older))
      × All (λ m. m.message.seq ≢ seq) newer
      × AreVotes seq view (last_votes seq ms)
unfolding last_votes
last_votes-AreVotes seq [] = (0, [], [], refl, tt, tt)
last_votes-AreVotes seq (m ∷ ms) = elim (Bool-cases (m.message.seq == seq)) [
  | inl e ↦
      let (older, split, are) = votes_of-AreVotes seq m.message.view ms in
      rw e (m.message.view, [], older, ap (λ l. m ∷ l) split, tt, (((==_iff _ _).0 e, refl), are))
  | inr e ↦
      let (view, newer, older, split, others, are) = last_votes-AreVotes seq ms in
      rw e (
        view,
        m ∷ newer,
        older,
        ap (λ l. m ∷ l) split,
        ((λ same. absurd (ground (arith, e, same))), others),
        are,
      )
]

-- The newest message of the instance, and those before it.
find_pre_prepare-newest :
    (seq : SeqNo) (ms : List Stored) (m : Stored)
    → find_pre_prepare seq ms ≡ ok m
    → (m.message.seq ≡ seq)
      × (newer : List Stored) × (older : List Stored) × (ms ≡ newer ++ m ∷ older)
      × All (λ m. m.message.seq ≢ seq) newer
unfolding find_pre_prepare
find_pre_prepare-newest seq [] m e = cc
find_pre_prepare-newest seq (x ∷ ms) m e = elim (Bool-cases (x.message.seq == seq)) [
  | inl same ↦
      let found : x ≡ m = ground (arith, e, same) in
      (ground (arith, same, found), [], ms, ap (λ y. y ∷ ms) found, tt)
  | inr other ↦
      let later : find_pre_prepare seq ms ≡ ok m = ground (arith, e, other) in
      let (seq_is, newer, older, split, others) = find_pre_prepare-newest seq ms m later in
      (
        seq_is,
        x ∷ newer,
        older,
        ap (λ l. x ∷ l) split,
        ((λ same. absurd (ground (arith, other, same))), others),
      )
]

-- What a proof of instance `seq` from the log `l` must hold in view `view`.
pub record IsProofOf (l : DecisionLog) (view : ViewInfo) (seq : SeqNo) (p : Proof) : Type 0 where
  pub proposed :
      (p.pre_prepare.message.seq ≡ seq)
      × (newer : List Stored) × (older : List Stored) × (reverse l.pre_prepares
          ≡ newer ++ p.pre_prepare ∷ older)
      × All (λ m. m.message.seq ≢ seq) newer
  pub prepared : IsNewestRun seq l.prepares p.prepares
  pub committed : IsNewestRun seq l.commits p.commits
  pub enough_prepares : view.params.f * 2 ≤ length p.prepares
  pub enough_commits : quorum view.params ≤ length p.commits

enough-some : (q : ℕ) (buf b : List Stored) → enough q buf ≡ some b → (buf ≡ b) × (q ≤ length b)
unfolding enough
enough-some q buf b e = ground arith

proof_of-some :
    (m : Stored) (a b : Option (List Stored)) (p : Proof)
    → proof_of m a b ≡ some p
    → (m ≡ p.pre_prepare) × (a ≡ some p.prepares) × (b ≡ some p.commits)
unfolding proof_of
proof_of-some m none b p e = cc
proof_of-some m (some a) none p e = cc
proof_of-some m (some a) (some b) p e = ground arith

decision_of-IsProofOf :
    (l : DecisionLog) (view : ViewInfo) (seq : SeqNo) (p : Proof)
    → decision_of l view seq ≡ ok (some p)
    → IsProofOf l view seq p
unfolding decision_of
decision_of-IsProofOf l view seq p e =
    let ps = last_votes seq (reverse l.prepares) in
    let cs = last_votes seq (reverse l.commits) in
    let (m, found, e') = >>=-eq-ok (find_pre_prepare seq (reverse l.pre_prepares)) _ e in
    let parts =
      proof_of-some m (enough (view.params.f * 2) ps) (enough (quorum view.params) cs) p
        (ground arith) in
    let pp = enough-some (view.params.f * 2) ps p.prepares parts.1 in
    let cp = enough-some (quorum view.params) cs p.commits parts.2 in
    let same : m ≡ p.pre_prepare = parts.0 in
    record {
      proposed =
          find_pre_prepare-newest seq (reverse l.pre_prepares) p.pre_prepare (found ∙ ap ok same);
      prepared =
          subst (IsNewestRun seq l.prepares) pp.0 (last_votes-AreVotes seq (reverse l.prepares));
      committed =
          subst (IsNewestRun seq l.commits) cp.0 (last_votes-AreVotes seq (reverse l.commits));
      enough_prepares = pp.1;
      enough_commits = cp.1;
    }

-- A proof of the last decision is of the last executed instance and from the log: the newest of its
-- messages in the list of `PRE-PREPARE`s; the newest run of its messages in the list of `PREPARE`s,
-- of one view and at least 2f; and the newest run of its messages in the list of `COMMIT`s, of one
-- view and at least a quorum.
pub last_decision-IsProofOf :
    (l : DecisionLog) (view : ViewInfo) (p : Proof)
    → last_decision l view ≡ ok (some p)
    → (seq : SeqNo) × (l.last_exec ≡ some seq) × IsProofOf l view seq p
unfolding last_decision
last_decision-IsProofOf l view p e = elim (Option-cases l.last_exec) [
  | inl never ↦ absurd (ground arith)
  | inr (seq, last) ↦ (seq, last, decision_of-IsProofOf l view seq p (ground arith))
]
