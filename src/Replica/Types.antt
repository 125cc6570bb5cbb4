-- ===== src/Replica/Types.antt =====
-- The state of a replica (bft/core/server/mod.rs), what it receives (bft/communication/mod.rs), and
-- what it sends and starts.
use bafomet.Base.{ℕ, Option, none, List, Result}
use bafomet.Collections.{OrderedMap}
use bafomet.Ordering.SeqNo.{SeqNo}
use bafomet.Message.{NodeId, Header, ConsensusMessage, ReplyMessage}
use bafomet.Message.System.{SystemMessage, CstMessage, Send}
use bafomet.Core.View.{ViewInfo}
use bafomet.Log.Store.{Log}
use bafomet.Log.Store
use bafomet.Executable.{UpdateBatchReplies, ExecutionRequest}
use bafomet.Consensus.State.{Consensus}
use bafomet.Consensus.State
use bafomet.Cst.State.{CollabStateTransfer}
use bafomet.Cst.State as CstState
use bafomet.Sync.Types.{StoredRequest, Synchronizer, Outgoing}
use bafomet.Sync.Watch

pub data ReplicaPhase : Type 0 where
  retrieving_state sync_phase normal_phase : ReplicaPhase

-- `Replica`, less the handles of the timeouts, the executor and the node.
pub record Replica (S O : Type 0) (R : OrderedMap (StoredRequest O)) : Type 0 where
  pub phase : ReplicaPhase
  pub phase_stack : Option ReplicaPhase
  pub synchronizer : Synchronizer O
  pub consensus : Consensus
  pub cst : CollabStateTransfer S O
  pub log : Log S O R

pub data TimeoutKind : Type 0 where
  cst : SeqNo → TimeoutKind
  client_requests : SeqNo → TimeoutKind

-- `Message`: what comes in on the channel of the replica. The socket of a
-- connection that is made concerns the node alone.
pub data Incoming (S O P : Type 0) : Type 0 where
  system : Header → SystemMessage S O P → Incoming S O P
  timeout : TimeoutKind → Incoming S O P
  execution_finished : UpdateBatchReplies P → Incoming S O P
  execution_finished_with_appstate : UpdateBatchReplies P → S → Incoming S O P
  connected_tx : NodeId → Incoming S O P
  connected_rx : NodeId → Incoming S O P
  disconnected_tx : NodeId → Incoming S O P
  disconnected_rx : Option NodeId → Incoming S O P

-- What a replica sends, hands to the executor, and starts.
pub data Effect (S O P : Type 0) : Type 0 where
  send_sync : Outgoing O → Effect S O P
  send_consensus : Send ConsensusMessage → Effect S O P
  send_cst : Send (CstMessage S O) → Effect S O P
  send_reply : NodeId → ReplyMessage P → Effect S O P
  start_timer : ℕ → TimeoutKind → Effect S O P
  execute : ExecutionRequest S O → Effect S O P

-- A result with what was done on the way.
abbrev pub Updated : (S O P : Type 0) → OrderedMap (StoredRequest O) → Type 0
Updated S O P R = Result (Replica S O R × List (Effect S O P))

-- 30 seconds and two minutes, in nanoseconds.
abbrev pub cst_base_dur : ℕ
cst_base_dur = 30000000000

abbrev pub req_base_dur : ℕ
req_base_dur = 120000000000

-- The replica that `bootstrap` makes.
unfoldable pub create :
    {S O : Type 0} {R : OrderedMap (StoredRequest O)} → ViewInfo → SeqNo → ℕ → Replica S O R
create view next_consensus_seq batch_size = record {
  phase = normal_phase;
  phase_stack = none;
  synchronizer = Watch.create req_base_dur view;
  consensus = State.create next_consensus_seq batch_size;
  cst = CstState.create cst_base_dur;
  log = Store.create batch_size;
}
