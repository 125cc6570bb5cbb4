-- ===== src/Sync/Types.antt =====
-- The data of the view change protocol (bft/sync/mod.rs), and the parts of its messages
-- (bft/communication/message/mod.rs).
use bafomet.Base.{ℕ, Bool, Option, none, some, List, [], ◌∷◌, HashMap}
use bafomet.Ordering.SeqNo.{SeqNo, Orderable}
use bafomet.Message.{Digest, Header, StoredMessage, RequestMessage, ConsensusMessage}
use bafomet.Message.System.{
  ViewChangeMessage, view_change, ViewChangeMessageKind, stop, stop_data, sync, Collects,
  no_collects, collect, Send,
}
use bafomet.Core.View.{ViewInfo}

abbrev pub StoredRequest : Type 0 → Type 0
StoredRequest O = StoredMessage (RequestMessage O)

abbrev pub StoredChange : Type 0 → Type 0
StoredChange O = StoredMessage (ViewChangeMessage O)

abbrev pub view_of : {O : Type 0} → ViewChangeMessage O → SeqNo
view_of (view_change seq kind) = seq

abbrev pub kind_of : {O : Type 0} → ViewChangeMessage O → ViewChangeMessageKind O
kind_of (view_change seq kind) = kind

instance abbrev pub view_change_orderable : {O : Type 0} → Orderable (ViewChangeMessage O)
view_change_orderable = record { sequence_number = view_of }

-- The vector of collects of a `LeaderCollects`, from and to its form in a message.
abbrev pub to_list : {O : Type 0} → Collects O → List (StoredChange O)
to_list no_collects = []
to_list (collect h m rest) = record { header = h; message = m } ∷ to_list rest

abbrev pub from_list : {O : Type 0} → List (StoredChange O) → Collects O
from_list [] = no_collects
from_list (c ∷ cs) = collect c.header c.message (from_list cs)

taken_from : {O : Type 0} → ViewChangeMessageKind O → Option (List Digest × List (StoredChange O))
taken_from (sync proposed collects) = some (proposed, to_list collects)
taken_from (stop _) = none
taken_from (stop_data _) = none

-- `take_collects` with `into_inner`; the message is used up by the only caller.
unfoldable pub take_collects :
    {O : Type 0} → ViewChangeMessage O → Option (List Digest × List (StoredChange O))
unfolding taken_from
take_collects m = taken_from (kind_of m)

-- `Sound`.
pub data Sound : Type 0 where
  unbound : Bool → Sound
  bound : Digest → Sound

pub record FinalizeState : Type 0 where
  pub curr_cid : SeqNo
  pub proposed : List Digest
  pub sound : Sound

pub data FinalizeStatus : Type 0 where
  no_value : FinalizeStatus
  run_cst : FinalizeState → FinalizeStatus
  commit_value : FinalizeState → FinalizeStatus

-- `TimeoutPhase`; an `Instant` is a number of nanoseconds.
pub data TimeoutPhase : Type 0 where
  fresh : ℕ → TimeoutPhase
  timed_out_once : ℕ → TimeoutPhase
  timed_out : TimeoutPhase

pub data ProtoPhase : Type 0 where
  init : ProtoPhase
  stopping : ℕ → ProtoPhase
  stopping2 : ℕ → ProtoPhase
  stopping_data : ℕ → ProtoPhase
  syncing : ProtoPhase
  syncing_state : ProtoPhase

-- `SynchronizerStatus`; its `Nil` is `idle`.
pub data SynchronizerStatus : Type 0 where
  idle running new_view ask_cst : SynchronizerStatus
  requests_timed_out : List Digest → List Digest → SynchronizerStatus

pub data SynchronizerPollStatus (O : Type 0) : Type 0 where
  recv : SynchronizerPollStatus O
  next_message : Header → ViewChangeMessage O → SynchronizerPollStatus O
  resume_view_change : SynchronizerPollStatus O

abbrev pub Queues : Type 0 → Type 0
Queues O = List (List (StoredChange O))

pub record TboQueue (O : Type 0) : Type 0 where
  pub view : ViewInfo
  pub get_queue : Bool
  pub stops : Queues O
  pub stop_datas : Queues O
  pub syncs : Queues O

pub record Synchronizer (O : Type 0) : Type 0 where
  pub watching_timeouts : Bool
  pub phase : ProtoPhase
  pub timeout_seq : SeqNo
  pub timeout_dur : ℕ
  pub stopped : HashMap (List (StoredRequest O))
  pub collects : HashMap (StoredChange O)
  pub watching : HashMap TimeoutPhase
  pub tbo : TboQueue O
  pub finalize_state : Option FinalizeState

-- What the protocol sends: messages of its own, consensus messages, and requests to forward.
pub data Outgoing (O : Type 0) : Type 0 where
  change : Send (ViewChangeMessage O) → Outgoing O
  consensus : Send ConsensusMessage → Outgoing O
  forward : Send (List (StoredRequest O)) → Outgoing O

-- A timer that is started: its duration, and the number that it carries.
abbrev pub Timer : Type 0
Timer = ℕ × SeqNo
