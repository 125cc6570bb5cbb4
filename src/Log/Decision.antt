-- ===== src/Log/Decision.antt =====
-- The proofs that a `DecisionLog` gives of its instances (bft/consensus/log/mod.rs). The loops run
-- over the lists from their newest message, `iter().rev()`.
pub mod Votes
mod Tests
use bafomet.Base.{
  ℕ, ◌+◌, ◌*◌, Bool, not, ◌&&◌, ◌==◌, ltb, if◌then◌else◌, Option, none, some, Result, ok, panic,
  ◌>>=◌, List, [], ◌∷◌, length, reverse, Ordering,
}
use bafomet.Ordering.SeqNo.{SeqNo, cmp, from_u32}
use bafomet.Message.{
  Digest, StoredMessage, ConsensusMessage, ConsensusMessageKind, pre_prepare, prepare, commit,
}
use bafomet.Core.Params.{quorum}
use bafomet.Core.View.{ViewInfo}
use bafomet.Log.Types.{DecisionLog, Proof, ViewDecisionPair, IncompleteProof, CollectData}

abbrev pub Stored : Type 0
Stored = StoredMessage ConsensusMessage

-- The last executed number and one, or zero. The sum is of `u32`.
unfoldable pub executing : DecisionLog → SeqNo
executing l = elim l.last_exec [ some last ↦ from_u32 (last + 1) | none ↦ 0 ]

-- The `WriteSet` of `to_be_decided`.
unfoldable pub write_set_loop : SeqNo → List Stored → Result (List ViewDecisionPair)
write_set_loop in_exec [] = ok []
write_set_loop in_exec (m ∷ ms) =
    let rest = write_set_loop in_exec ms in
    elim (cmp m.message.seq in_exec) [
      | Ordering.eq ↦
          rest >>= λ pairs. ok (record { view = m.message.view; value = m.header.digest } ∷ pairs)
      | Ordering.lt ↦ ok []
      | Ordering.gt ↦ panic
    ]

-- The digest of a message that is expected to be a `PREPARE`.
unfoldable pub prepared_digest : ConsensusMessageKind → Result Digest
prepared_digest (prepare d) = ok d
prepared_digest (pre_prepare _) = panic
prepared_digest (commit _) = panic

-- The votes counted so far, once a vote of view `v` has come in.
unfoldable pub count_vote : Option SeqNo → ℕ → SeqNo → ℕ
count_vote none count v = count + 1
count_vote (some last_view) count v = if v == last_view then count + 1 else 1

-- The quorum writes of `to_be_decided`.
unfoldable pub quorum_writes_loop :
    SeqNo → ℕ → Option SeqNo → ℕ → List Stored → Result (Option ViewDecisionPair)
quorum_writes_loop in_exec quorum last_view count [] = ok none
quorum_writes_loop in_exec quorum last_view count (m ∷ ms) =
    let count' = count_vote last_view count m.message.view in
    let rest = quorum_writes_loop in_exec quorum (some m.message.view) count' ms in
    elim (cmp m.message.seq in_exec) [
      | Ordering.eq ↦
          if count' == quorum
          then (prepared_digest m.message.kind >>= λ d.
              ok (some (record { view = m.message.view; value = d })))
          else rest
      | Ordering.lt ↦ ok none
      | Ordering.gt ↦ panic
    ]

unfoldable pub to_be_decided : DecisionLog → ViewInfo → Result IncompleteProof
to_be_decided l view = do
  let in_exec = executing l
  write_set ← write_set_loop in_exec (reverse l.pre_prepares)
  quorum_writes ← quorum_writes_loop in_exec (view.params.f * 2) none 0 (reverse l.prepares)
  ok (record { in_exec = in_exec; write_set = write_set; quorum_writes = quorum_writes })

-- The newest `PRE-PREPARE` of an instance.
unfoldable pub find_pre_prepare : SeqNo → List Stored → Result Stored
find_pre_prepare seq [] = panic
find_pre_prepare seq (m ∷ ms) = if m.message.seq == seq then ok m else find_pre_prepare seq ms

-- The votes of instance `seq` and view `view` up to the first other one.
unfoldable pub votes_of : SeqNo → SeqNo → List Stored → List Stored
votes_of seq view [] = []
votes_of seq view (m ∷ ms) =
    if m.message.seq == seq && m.message.view == view then m ∷ votes_of seq view ms else []

-- The newest run of votes of instance `seq` in one view; newer messages are skipped.
unfoldable pub last_votes : SeqNo → List Stored → List Stored
last_votes seq [] = []
last_votes seq (m ∷ ms) =
    if m.message.seq == seq then m ∷ votes_of seq m.message.view ms else last_votes seq ms

-- `None` for fewer than `quorum` votes.
unfoldable pub enough : ℕ → List Stored → Option (List Stored)
enough quorum buf = if ltb (length buf) quorum then none else some buf

unfoldable pub proof_of : Stored → Option (List Stored) → Option (List Stored) → Option Proof
proof_of p (some prepares) (some commits) =
    some (record { pre_prepare = p; prepares = prepares; commits = commits })
proof_of p _ _ = none

unfoldable pub decision_of : DecisionLog → ViewInfo → SeqNo → Result (Option Proof)
unfolding enough proof_of
decision_of l view seq = do
  p ← find_pre_prepare seq (reverse l.pre_prepares)
  ok (
      proof_of p (enough (view.params.f * 2) (last_votes seq (reverse l.prepares)))
        (enough (quorum view.params) (last_votes seq (reverse l.commits))))

-- `None` before the first execution.
unfoldable pub last_decision : DecisionLog → ViewInfo → Result (Option Proof)
unfolding decision_of
last_decision l view = elim l.last_exec [ some seq ↦ decision_of l view seq | none ↦ ok none ]

unfoldable pub collect_data : DecisionLog → ViewInfo → Result CollectData
collect_data l view = do
  incomplete ← to_be_decided l view
  last ← last_decision l view
  ok (record { incomplete_proof = incomplete; last_proof = last })
