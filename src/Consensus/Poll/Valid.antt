-- ===== src/Consensus/Poll/Valid.antt =====
-- `poll` keeps the queues valid, and gives messages of the current instance (bft/consensus/mod.rs).
use bafomet.Base.{
  Option, none, some, Bool, true, false, if◌then◌else◌, is_empty, ◌≡◌, refl, subst, sym, inl, inr,
}
use bafomet.Ordering.SeqNo.{SeqNo, index, right}
use bafomet.Ordering.Queue.{tbo_pop_message}
use bafomet.Ordering.Queue.Slots.{slot-tbo_pop_message}
use bafomet.Ordering.Queue.Aligned.{IsAt, IsAligned, tbo_pop_message-IsAligned}
use bafomet.Message.{Digest, StoredMessage, ConsensusMessage, consensus_message_orderable}
use bafomet.Consensus.Tbo.{Queues}
use bafomet.Consensus.Tbo.Valid.{IsValid}
use bafomet.Consensus.State.{
  ProtoPhase, init, pre_preparing, preparing_requests, preparing, committing, Consensus,
}
use bafomet.Consensus.Poll.{
  ConsensusPollStatus, recv, try_propose_and_recv, next_message, with_pre_prepares, with_prepares,
  with_commits, extract, remove_available, poll, poll_phase,
}

-- A message that was popped is of the current instance, up to the sign bit.
abbrev pub IsCurrent : SeqNo → Option (StoredMessage ConsensusMessage) → Type 0
IsCurrent curr none = Unit
IsCurrent curr (some m) = IsAt curr 0 m

popped :
    (curr : SeqNo) (q : Queues)
    → IsAligned curr q
    → IsAligned curr (tbo_pop_message q).1 × IsCurrent curr (tbo_pop_message q).0
popped curr q h = elim (slot-tbo_pop_message q) [
  | inl (e, _, same) ↦ (λ k. rw (same k) (h k), subst (IsCurrent curr) (sym e) tt)
  | inr (m, e, head, same) ↦
      let p = tbo_pop_message-IsAligned curr q m h e in (p.1, subst (IsCurrent curr) (sym e) p.0)
]

-- What `poll` says: a message it gives out is of the current instance, up to the sign bit.
abbrev pub IsPolled : SeqNo → ConsensusPollStatus → Type 0
IsPolled curr recv = Unit
IsPolled curr try_propose_and_recv = Unit
IsPolled curr (next_message h m) = index m.seq curr ≡ right 0

abbrev Keeps : SeqNo → ConsensusPollStatus × Consensus → Type 0
Keeps curr r = IsValid r.1.tbo × (r.1.tbo.curr_seq ≡ curr) × IsPolled curr r.0

extract-Keeps :
    (o : Option (StoredMessage ConsensusMessage)) (c : Consensus) (rsp : ConsensusPollStatus)
    (phase : ProtoPhase)
    → IsValid c.tbo
    → IsCurrent c.tbo.curr_seq o
    → IsPolled c.tbo.curr_seq rsp
    → Keeps c.tbo.curr_seq (extract o c rsp phase)
unfolding extract
extract-Keeps none c rsp phase v e f = (
  record {
    in_use = v.in_use;
    proposals = v.proposals;
    votes = v.votes;
    commitments = v.commitments;
  },
  refl,
  f,
)
extract-Keeps (some m) c rsp phase v e f = (v, refl, e)

module _ (c : Consensus) (rsp : ConsensusPollStatus) (phase : ProtoPhase) (v : IsValid c.tbo) where
  pre_prepares-Keeps :
      IsPolled c.tbo.curr_seq rsp
      → Keeps c.tbo.curr_seq (
          extract
            (tbo_pop_message c.tbo.pre_prepares).0
            (with_pre_prepares c (tbo_pop_message c.tbo.pre_prepares).1)
            rsp
            phase)
  unfolding with_pre_prepares
  pre_prepares-Keeps f =
      let p = popped c.tbo.curr_seq c.tbo.pre_prepares v.proposals in
      extract-Keeps (tbo_pop_message c.tbo.pre_prepares).0
        (with_pre_prepares c (tbo_pop_message c.tbo.pre_prepares).1) rsp phase
        (record {
          in_use = v.in_use;
          proposals = p.0;
          votes = v.votes;
          commitments = v.commitments;
        })
        p.1 f

  prepares-Keeps :
      IsPolled c.tbo.curr_seq rsp
      → Keeps c.tbo.curr_seq (
          extract
            (tbo_pop_message c.tbo.prepares).0
            (with_prepares c (tbo_pop_message c.tbo.prepares).1)
            rsp
            phase)
  unfolding with_prepares
  prepares-Keeps f =
      let p = popped c.tbo.curr_seq c.tbo.prepares v.votes in
      extract-Keeps (tbo_pop_message c.tbo.prepares).0
        (with_prepares c (tbo_pop_message c.tbo.prepares).1) rsp phase
        (record {
          in_use = v.in_use;
          proposals = v.proposals;
          votes = p.0;
          commitments = v.commitments;
        })
        p.1 f

  commits-Keeps :
      IsPolled c.tbo.curr_seq rsp
      → Keeps c.tbo.curr_seq (
          extract
            (tbo_pop_message c.tbo.commits).0
            (with_commits c (tbo_pop_message c.tbo.commits).1)
            rsp
            phase)
  unfolding with_commits
  commits-Keeps f =
      let p = popped c.tbo.curr_seq c.tbo.commits v.commitments in
      extract-Keeps (tbo_pop_message c.tbo.commits).0
        (with_commits c (tbo_pop_message c.tbo.commits).1) rsp phase
        (record { in_use = v.in_use; proposals = v.proposals; votes = v.votes; commitments = p.0 })
        p.1 f

-- What holds of both branches holds of the test.
either :
    (curr : SeqNo) (b : Bool) (r s : ConsensusPollStatus × Consensus)
    → Keeps curr r
    → Keeps curr s
    → Keeps curr (if b then r else s)
either curr true r s x y = x
either curr false r s x y = y

poll_phase-Keeps :
    (has : Digest → Bool) (c : Consensus) (phase : ProtoPhase)
    → IsValid c.tbo
    → Keeps c.tbo.curr_seq (poll_phase has c phase)
unfolding poll_phase
poll_phase-Keeps has c init v =
    either c.tbo.curr_seq c.tbo.get_queue _ _
      (pre_prepares-Keeps c try_propose_and_recv pre_preparing v tt) (v, refl, tt)
poll_phase-Keeps has c pre_preparing v =
    either c.tbo.curr_seq c.tbo.get_queue _ _ (pre_prepares-Keeps c recv pre_preparing v tt)
      (v, refl, tt)
poll_phase-Keeps has c preparing_requests v =
    let c' = record c { missing_requests = remove_available has c.missing_requests } in
    either c.tbo.curr_seq (is_empty c'.missing_requests) _ _
      (prepares-Keeps c' recv (preparing 1) v tt) (v, refl, tt)
poll_phase-Keeps has c (preparing i) v =
    either c.tbo.curr_seq c.tbo.get_queue _ _ (prepares-Keeps c recv (preparing i) v tt)
      (v, refl, tt)
poll_phase-Keeps has c (committing i) v =
    either c.tbo.curr_seq c.tbo.get_queue _ _ (commits-Keeps c recv (committing i) v tt)
      (v, refl, tt)

-- Polling valid queues leaves them valid and at the same instance, and a message that it gives out
-- is of that instance, up to the sign bit of its number.
pub poll-IsValid :
    (has : Digest → Bool) (c : Consensus)
    → IsValid c.tbo
    → IsValid (poll has c).1.tbo
      × ((poll has c).1.tbo.curr_seq ≡ c.tbo.curr_seq)
      × IsPolled c.tbo.curr_seq (poll has c).0
unfolding poll
poll-IsValid has c v = poll_phase-Keeps has c c.phase v
