-- ===== src/Consensus/Tests.antt =====
-- A consensus of four nodes at concrete messages.
use bafomet.Base.{ℕ, ◌+◌, ◌^◌, true, false, ok, List, [], ◌∷◌, ◌≡◌, refl, arith, contains_key, get}
use bafomet.Collections.{assoc_map}
use bafomet.Ordering.SeqNo.{SeqNo, index, right}
use bafomet.Message.{
  NodeId, Digest, Header, StoredMessage, ConsensusMessage, ConsensusMessageKind, pre_prepare,
  prepare, commit, has_proposed_digest, consensus_message_orderable,
}
use bafomet.Core.View.{ViewInfo, leader}
use bafomet.Log.Types.{empty_declog}
use bafomet.Log.Store.{StoredRequest, Log, create, insert_consensus, has_request, push_consensus}
use bafomet.Consensus.Tbo
use bafomet.Consensus.Tbo.{TboQueue, next_instance_queue}
use bafomet.Consensus.Tbo.Valid.{
  IsValid, create-IsValid, queue_pre_prepare-IsValid, next_instance_queue-IsValid, IsNextOf,
}
use bafomet.Consensus.State.{
  init, pre_preparing, preparing_requests, committing, Consensus, deciding, decided,
  install_sequence_number, copy_digests, vote_prepare,
}
use bafomet.Consensus.Process.{Processed, process_message}
use bafomet.Consensus.Process.Votes.{IsBacked, IsDecided, process_message-IsDecided}
use bafomet.Consensus.Process.Waiting.{process_message-IsValid}

abbrev TestLog : Type 0
TestLog = Log ℕ ℕ (assoc_map (StoredRequest ℕ))

abbrev view : ViewInfo
view = record { seq = 0; params = record { n = 4; f = 1 } }

abbrev header : NodeId → Header
header from = record {
  version = 0;
  from = from;
  to = 0;
  nonce = from;
  length = 0;
  digest = 9;
  signature = 0;
}

abbrev message : SeqNo → ConsensusMessageKind → ConsensusMessage
message seq kind = record { seq = seq; view = 0; kind = kind }

abbrev stored : SeqNo → ConsensusMessageKind → StoredMessage ConsensusMessage
stored seq kind = record { header = header 1; message = message seq kind }

abbrev empty_log : TestLog
empty_log = create 2

abbrev tbo : TboQueue
tbo = Tbo.create 7

tbo-IsValid : IsValid tbo
tbo-IsValid = create-IsValid 7 (omega arith)

-- The consensus of instance 7, in any phase.
abbrev waiting : Consensus
waiting = record {
  batch_size = 1;
  phase = pre_preparing;
  tbo = tbo;
  current = 5 ∷ 6 ∷ [];
  current_digest = 9;
  missing_requests = [];
}

abbrev almost : Consensus
almost = record waiting { phase = committing 2 }

next_instance_queue-IsValid_example :
    IsValid
      (next_instance_queue (Tbo.queue_pre_prepare tbo (header 1) (message 8 (pre_prepare []))))
    × IsNextOf
        (Tbo.queue_pre_prepare tbo (header 1) (message 8 (pre_prepare [])))
        (next_instance_queue (Tbo.queue_pre_prepare tbo (header 1) (message 8 (pre_prepare []))))
next_instance_queue-IsValid_example =
    next_instance_queue-IsValid (Tbo.queue_pre_prepare tbo (header 1) (message 8 (pre_prepare [])))
      (queue_pre_prepare-IsValid tbo (header 1) (message 8 (pre_prepare [])) tbo-IsValid)

-- Instance 20 is 13 steps ahead, beyond the queues.
abbrev installed : Consensus
installed = record waiting {
  tbo = record { curr_seq = 20; get_queue = true; pre_prepares = []; prepares = []; commits = [] };
  phase = init;
}

install-waiting : install_sequence_number waiting 20 ≡ ok installed
unfolding install_sequence_number index Tbo.create
install-waiting = refl

-- Proposals for instances 7, 8 and 9 have come in, and no votes.
abbrev ahead : Consensus
ahead = record waiting {
  tbo = record {
    curr_seq = 7;
    get_queue = false;
    pre_prepares = [] ∷ [] ∷ (stored 9 (pre_prepare []) ∷ []) ∷ [];
    prepares = [];
    commits = [];
  };
}

index-next_two : index 9 7 ≡ right 2
unfolding index
index-next_two = refl

index-next_one : index 8 7 ≡ right 1
unfolding index
index-next_one = refl

-- Two COMMIT messages of instance 7 are in the log, and so are two PREPARE messages.
abbrev voted : TestLog
voted = record empty_log {
  declog = record empty_declog {
    prepares = stored 7 (prepare 9) ∷ stored 7 (prepare 9) ∷ [];
    commits = stored 7 (commit 9) ∷ stored 7 (commit 9) ∷ [];
  };
}

voted-IsBacked : IsBacked 0 view almost voted (committing 2)
unfolding Tbo.create
voted-IsBacked = (ground arith, ground arith)

abbrev result : Processed ℕ ℕ (assoc_map (StoredRequest ℕ))
result = record {
  status = decided (5 ∷ []);
  consensus = record almost { phase = init };
  log = insert_consensus voted (header 2) (message 7 (commit 9));
  sent = [];
}

third_commit : process_message 0 view almost voted (header 2) (message 7 (commit 9)) ≡ ok result
unfolding process_message has_proposed_digest Tbo.create
third_commit = refl

process_message-IsDecided_example :
    IsBacked 0 view result.consensus result.log init
    × IsDecided 0 view result.consensus result.log (decided (5 ∷ []))
process_message-IsDecided_example =
    process_message-IsDecided 0 view almost voted (header 2) (message 7 (commit 9)) result
      voted-IsBacked third_commit

process_message-IsValid_example : IsValid result.consensus.tbo
process_message-IsValid_example =
    process_message-IsValid 0 view almost voted (header 2) (message 7 (commit 9)) result tbo-IsValid
      third_commit

-- The queued proposal has the number 7 with the sign bit set.
abbrev negative : StoredMessage ConsensusMessage
negative = stored (7 + 2 ^ 31) (pre_prepare (5 ∷ []))

abbrev polled : Consensus
polled = record waiting {
  tbo = record {
    curr_seq = 7;
    get_queue = true;
    pre_prepares = (negative ∷ []) ∷ [];
    prepares = [];
    commits = [];
  };
}

abbrev three : List Digest
three = 1 ∷ 2 ∷ 3 ∷ []

-- A proposal of one request is checked against the second digest of the buffer too.
abbrev stale : Processed ℕ ℕ (assoc_map (StoredRequest ℕ))
stale = record {
  status = deciding;
  consensus = record waiting {
    phase = preparing_requests;
    current_digest = 9;
    current = 8 ∷ 6 ∷ [];
    missing_requests = 8 ∷ 6 ∷ [];
  };
  log = insert_consensus empty_log (header 0) (message 7 (pre_prepare (8 ∷ [])));
  sent = [];
}

process-stale :
    process_message 0 view waiting empty_log (header 0) (message 7 (pre_prepare (8 ∷ [])))
    ≡ ok stale
unfolding process_message has_request copy_digests create Tbo.create assoc_map contains_key get
    insert_consensus push_consensus vote_prepare leader
process-stale = refl

lacking : has_request empty_log 6 ≡ false
unfolding has_request create assoc_map contains_key get
lacking = refl
