-- ===== src/Message/System.antt =====
-- The messages of the other sub-protocols (bft/communication/message/mod.rs), with the recovery
-- state (bft/cst/mod.rs) and the collects of a leader (bft/sync/mod.rs) that they carry.
use bafomet.Base.{Option, none, some, List}
use bafomet.Ordering.SeqNo.{SeqNo}
use bafomet.Core.View.{ViewInfo}
use bafomet.Log.Types.{Checkpoint, DecisionLog, CollectData}
use bafomet.Message.{
  NodeId, Digest, Header, StoredMessage, RequestMessage, ReplyMessage, ConsensusMessage,
}

pub record RecoveryState (S O : Type 0) : Type 0 where
  pub view : ViewInfo
  pub checkpoint : Checkpoint S
  pub requests : List O
  pub declog : DecisionLog

-- `ViewChangeMessage`, its kind, and the stored messages of `LeaderCollects`. A `sync` carries the
-- two fields of its `LeaderCollects`.
mutual
  pub data ViewChangeMessage (O : Type 0) : Type 0 where
    view_change : SeqNo → ViewChangeMessageKind O → ViewChangeMessage O

  pub data ViewChangeMessageKind (O : Type 0) : Type 0 where
    stop : List (StoredMessage (RequestMessage O)) → ViewChangeMessageKind O
    stop_data : CollectData → ViewChangeMessageKind O
    sync : List Digest → Collects O → ViewChangeMessageKind O

  pub data Collects (O : Type 0) : Type 0 where
    no_collects : Collects O
    collect : Header → ViewChangeMessage O → Collects O → Collects O

pub data CstMessageKind (S O : Type 0) : Type 0 where
  request_latest_consensus_seq : CstMessageKind S O
  reply_latest_consensus_seq : SeqNo → CstMessageKind S O
  request_state : CstMessageKind S O
  reply_state : RecoveryState S O → CstMessageKind S O

pub record CstMessage (S O : Type 0) : Type 0 where
  pub seq : SeqNo
  pub kind : CstMessageKind S O

pub data SystemMessage (S O P : Type 0) : Type 0 where
  request : RequestMessage O → SystemMessage S O P
  reply : ReplyMessage P → SystemMessage S O P
  consensus : ConsensusMessage → SystemMessage S O P
  cst : CstMessage S O → SystemMessage S O P
  view_change_msg : ViewChangeMessage O → SystemMessage S O P
  forwarded_requests : List (StoredMessage (RequestMessage O)) → SystemMessage S O P

-- What a handler hands to the network: `node.send` and `node.broadcast`.
pub data Send (M : Type 0) : Type 0 where
  send : M → NodeId → Send M
  broadcast : M → List NodeId → Send M

module _ {S O : Type 0} where
  take_reply : CstMessageKind S O → Option (RecoveryState S O)
  take_reply (reply_state state) = some state
  take_reply _ = none

  -- `CstMessage::take_state`; the message is used up by its only caller.
  unfoldable pub take_state : CstMessage S O → Option (RecoveryState S O)
  unfolding take_reply
  take_state m = take_reply m.kind
