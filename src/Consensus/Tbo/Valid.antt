-- ===== src/Consensus/Tbo/Valid.antt =====
-- The messages of a `TboQueue` wait in the slots of their instances (bft/consensus/mod.rs).
use bafomet.Base.{ℕ, suc, ◌≡◌, refl}
use bafomet.Ordering.SeqNo.{SeqNo, IsSeqNo, next}
use bafomet.Ordering.Queue.Slots.{slot, slot-tbo_advance_message_queue}
use bafomet.Ordering.Distance.{next-IsSeqNo}
use bafomet.Ordering.Queue.Aligned.{
  IsAligned, tbo_queue_message-IsAligned, tbo_advance_message_queue-IsAligned,
}
use bafomet.Message.{
  Header, ConsensusMessage, ConsensusMessageKind, pre_prepare, prepare, commit,
  consensus_message_orderable,
}
use bafomet.Consensus.Tbo.{
  TboQueue, create, next_instance_queue, queue_pre_prepare, queue_prepare, queue_commit, queue,
  queue_kind,
}

-- The current number is in use, and every message stands in the slot of its distance from it.
pub record IsValid (t : TboQueue) : Type 0 where
  pub in_use : IsSeqNo t.curr_seq
  pub proposals : IsAligned t.curr_seq t.pre_prepares
  pub votes : IsAligned t.curr_seq t.prepares
  pub commitments : IsAligned t.curr_seq t.commits

pub create-IsValid : (s : SeqNo) → IsSeqNo s → IsValid (create s)
unfolding create
create-IsValid s h = record {
  in_use = h;
  proposals = λ k. tt;
  votes = λ k. tt;
  commitments = λ k. tt;
}

module _ (t : TboQueue) (h : Header) (m : ConsensusMessage) (v : IsValid t) where
  pub queue_pre_prepare-IsValid : IsValid (queue_pre_prepare t h m)
  unfolding queue_pre_prepare
  queue_pre_prepare-IsValid = record {
    in_use = v.in_use;
    proposals = tbo_queue_message-IsAligned t.curr_seq t.pre_prepares _ v.proposals;
    votes = v.votes;
    commitments = v.commitments;
  }

  pub queue_prepare-IsValid : IsValid (queue_prepare t h m)
  unfolding queue_prepare
  queue_prepare-IsValid = record {
    in_use = v.in_use;
    proposals = v.proposals;
    votes = tbo_queue_message-IsAligned t.curr_seq t.prepares _ v.votes;
    commitments = v.commitments;
  }

  pub queue_commit-IsValid : IsValid (queue_commit t h m)
  unfolding queue_commit
  queue_commit-IsValid = record {
    in_use = v.in_use;
    proposals = v.proposals;
    votes = v.votes;
    commitments = tbo_queue_message-IsAligned t.curr_seq t.commits _ v.commitments;
  }

-- Queueing a message of any kind keeps the queue valid.
pub queue-IsValid :
    (t : TboQueue) (h : Header) (m : ConsensusMessage) → IsValid t → IsValid (queue t h m)
unfolding queue
queue-IsValid t h m v = go m.kind
  where
    go : (k : ConsensusMessageKind) → IsValid (queue_kind t h m k)
    go (pre_prepare _) = queue_pre_prepare-IsValid t h m v
    go (prepare _) = queue_prepare-IsValid t h m v
    go (commit _) = queue_commit-IsValid t h m v

-- The queue `t'` is `t` one instance later.
abbrev pub IsNextOf : TboQueue → TboQueue → Type 0
IsNextOf t t' =
    (t'.curr_seq ≡ next t.curr_seq)
    × ((k : ℕ) → slot t'.pre_prepares k ≡ slot t.pre_prepares (suc k))
    × ((k : ℕ) → slot t'.prepares k ≡ slot t.prepares (suc k))
    × ((k : ℕ) → slot t'.commits k ≡ slot t.commits (suc k))

-- Going to the next instance keeps a valid queue valid: the number is the next one, every message
-- gets one slot nearer, in the same order and in all three queues, and those of the old instance go.
pub next_instance_queue-IsValid :
    (t : TboQueue)
    → IsValid t
    → IsValid (next_instance_queue t) × IsNextOf t (next_instance_queue t)
unfolding next_instance_queue
next_instance_queue-IsValid t v = (
  record {
    in_use = next-IsSeqNo t.curr_seq v.in_use;
    proposals = tbo_advance_message_queue-IsAligned t.curr_seq t.pre_prepares v.in_use v.proposals;
    votes = tbo_advance_message_queue-IsAligned t.curr_seq t.prepares v.in_use v.votes;
    commitments = tbo_advance_message_queue-IsAligned t.curr_seq t.commits v.in_use v.commitments;
  },
  (
    refl,
    slot-tbo_advance_message_queue t.pre_prepares,
    slot-tbo_advance_message_queue t.prepares,
    slot-tbo_advance_message_queue t.commits,
  ),
)
