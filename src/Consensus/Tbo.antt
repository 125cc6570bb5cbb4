-- ===== src/Consensus/Tbo.antt =====
-- `TboQueue` (bft/consensus/mod.rs): the consensus messages that wait for their instance and phase.
pub mod Valid
use bafomet.Base.{ℕ, Bool, true, false, List, []}
use bafomet.Ordering.SeqNo.{SeqNo, next}
use bafomet.Ordering.Queue.{tbo_queue_message, tbo_advance_message_queue}
use bafomet.Message.{
  Header, StoredMessage, ConsensusMessage, ConsensusMessageKind, pre_prepare, prepare, commit,
  consensus_message_orderable,
}

abbrev pub Queues : Type 0
Queues = List (List (StoredMessage ConsensusMessage))

pub record TboQueue : Type 0 where
  pub curr_seq : SeqNo
  pub get_queue : Bool
  pub pre_prepares : Queues
  pub prepares : Queues
  pub commits : Queues

unfoldable pub create : SeqNo → TboQueue
create curr_seq = record {
  curr_seq = curr_seq;
  get_queue = false;
  pre_prepares = [];
  prepares = [];
  commits = [];
}

unfoldable pub signal : TboQueue → TboQueue
signal t = record t { get_queue = true }

unfoldable pub next_instance_queue : TboQueue → TboQueue
next_instance_queue t = record t {
  curr_seq = next t.curr_seq;
  pre_prepares = tbo_advance_message_queue t.pre_prepares;
  prepares = tbo_advance_message_queue t.prepares;
  commits = tbo_advance_message_queue t.commits;
}

unfoldable pub queue_pre_prepare : TboQueue → Header → ConsensusMessage → TboQueue
queue_pre_prepare t h m = record t {
  pre_prepares = tbo_queue_message t.curr_seq t.pre_prepares (record { header = h; message = m });
}

unfoldable pub queue_prepare : TboQueue → Header → ConsensusMessage → TboQueue
queue_prepare t h m = record t {
  prepares = tbo_queue_message t.curr_seq t.prepares (record { header = h; message = m });
}

unfoldable pub queue_commit : TboQueue → Header → ConsensusMessage → TboQueue
queue_commit t h m = record t {
  commits = tbo_queue_message t.curr_seq t.commits (record { header = h; message = m });
}

queue_kind : TboQueue → Header → ConsensusMessage → ConsensusMessageKind → TboQueue
queue_kind t h m (pre_prepare _) = queue_pre_prepare t h m
queue_kind t h m (prepare _) = queue_prepare t h m
queue_kind t h m (commit _) = queue_commit t h m

-- `TboQueue::queue`.
unfoldable pub queue : TboQueue → Header → ConsensusMessage → TboQueue
unfolding queue_kind
queue t h m = queue_kind t h m m.kind
