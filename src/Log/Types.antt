-- ===== src/Log/Types.antt =====
-- The data of bft/consensus/log/mod.rs.
use bafomet.Base.{Option, none, List, []}
use bafomet.Ordering.SeqNo.{SeqNo}
use bafomet.Message.{Digest, StoredMessage, ConsensusMessage}

-- `Info`.
pub data Info : Type 0 where
  nil begin_checkpoint : Info

pub record Checkpoint (S : Type 0) : Type 0 where
  pub seq : SeqNo
  pub appstate : S

-- `CheckpointState`; its `None` is `no_checkpoint`.
pub data CheckpointState (S : Type 0) : Type 0 where
  no_checkpoint : CheckpointState S
  partial : SeqNo → CheckpointState S
  partial_with_earlier : SeqNo → Checkpoint S → CheckpointState S
  complete : Checkpoint S → CheckpointState S

pub record DecisionLog : Type 0 where
  pub last_exec : Option SeqNo
  pub pre_prepares : List (StoredMessage ConsensusMessage)
  pub prepares : List (StoredMessage ConsensusMessage)
  pub commits : List (StoredMessage ConsensusMessage)

pub record Proof : Type 0 where
  pub pre_prepare : StoredMessage ConsensusMessage
  pub prepares : List (StoredMessage ConsensusMessage)
  pub commits : List (StoredMessage ConsensusMessage)

-- `ViewDecisionPair`.
pub record ViewDecisionPair : Type 0 where
  pub view : SeqNo
  pub value : Digest

-- `IncompleteProof`, its `WriteSet` as the list in it.
pub record IncompleteProof : Type 0 where
  pub in_exec : SeqNo
  pub write_set : List ViewDecisionPair
  pub quorum_writes : Option ViewDecisionPair

pub record CollectData : Type 0 where
  pub incomplete_proof : IncompleteProof
  pub last_proof : Option Proof

-- `DecisionLog::new`.
abbrev pub empty_declog : DecisionLog
empty_declog = record { last_exec = none; pre_prepares = []; prepares = []; commits = [] }
