-- ===== src/Cst/State.antt =====
-- The state of `CollabStateTransfer`, its requests and its timeouts (bft/cst/mod.rs).
use bafomet.Base.{
  ℕ, ◌*◌, ◌^◌, Bool, true, false, not, ltb, ◌==◌, if◌then◌else◌, Result, ok, panic, ◌>>=◌, [],
  HashMap,
}
use bafomet.Ordering.SeqNo.{SeqNo, next}
use bafomet.Message.{Header}
use bafomet.Message.System.{
  RecoveryState, CstMessage, CstMessageKind, request_latest_consensus_seq, request_state, Send,
  broadcast,
}
use bafomet.Core.View.{ViewInfo}
use bafomet.Consensus.State.{targets}

pub data ProtoPhase (S O : Type 0) : Type 0 where
  init : ProtoPhase S O
  waiting_checkpoint : Header → CstMessage S O → ProtoPhase S O
  receiving_cid : ℕ → ProtoPhase S O
  receiving_state : ℕ → ProtoPhase S O

pub record ReceivedState (S O : Type 0) : Type 0 where
  pub count : ℕ
  pub state : RecoveryState S O

-- A `Duration` is its number of nanoseconds.
pub record CollabStateTransfer (S O : Type 0) : Type 0 where
  pub latest_cid : SeqNo
  pub cst_seq : SeqNo
  pub latest_cid_count : ℕ
  pub base_timeout : ℕ
  pub curr_timeout : ℕ
  pub received_states : HashMap (ReceivedState S O)
  pub phase : ProtoPhase S O

-- `CstStatus`; its `Nil` is `idle`.
pub data CstStatus (S O : Type 0) : Type 0 where
  idle : CstStatus S O
  running : CstStatus S O
  ask_latest_cid : CstStatus S O
  ask_state : CstStatus S O
  seq_no : SeqNo → CstStatus S O
  state : RecoveryState S O → CstStatus S O

-- `CstProgress`; its `Nil` is `nothing`.
pub data CstProgress (S O : Type 0) : Type 0 where
  nothing : CstProgress S O
  message : Header → CstMessage S O → CstProgress S O

-- What a request leaves: the new state, what is sent, and the timeout that is started, for the
-- number in it.
pub record Requested (S O : Type 0) : Type 0 where
  pub cst : CollabStateTransfer S O
  pub sent : Send (CstMessage S O)
  pub timeout : ℕ × SeqNo

-- A `Duration` of 2^64 seconds does not fit.
abbrev pub duration_end : ℕ
duration_end = 2 ^ 64 * 1000000000

unfoldable pub double : ℕ → Result ℕ
double duration = if ltb (duration * 2) duration_end then ok (duration * 2) else panic

module _ {S O : Type 0} where
  unfoldable pub create : ℕ → CollabStateTransfer S O
  create base_timeout = record {
    base_timeout = base_timeout;
    curr_timeout = base_timeout;
    received_states = [];
    phase = init;
    latest_cid = 0;
    latest_cid_count = 0;
    cst_seq = 0;
  }

  is_waiting : ProtoPhase S O → Bool
  is_waiting (waiting_checkpoint _ _) = true
  is_waiting init = false
  is_waiting (receiving_cid _) = false
  is_waiting (receiving_state _) = false

  unfoldable pub needs_checkpoint : CollabStateTransfer S O → Bool
  unfolding is_waiting
  needs_checkpoint c = is_waiting c.phase

  -- The number to use, and the state with the one after it.
  unfoldable pub next_seq : CollabStateTransfer S O → SeqNo × CollabStateTransfer S O
  next_seq c = (c.cst_seq, record c { cst_seq = next c.cst_seq })

  -- The common end of the two requests.
  request_in :
      ProtoPhase S O → CstMessageKind S O → CollabStateTransfer S O → ViewInfo → Requested S O
  unfolding next_seq
  request_in phase kind c view =
      let n = next_seq c in
      record {
        cst = record n.1 { phase = phase };
        sent = broadcast (record { seq = n.0; kind = kind }) (targets view);
        timeout = (c.curr_timeout, n.0);
      }

  unfoldable pub request_latest_consensus_seq_no :
      CollabStateTransfer S O → ViewInfo → Requested S O
  unfolding request_in
  request_latest_consensus_seq_no c view =
      request_in (receiving_cid 0) request_latest_consensus_seq
        (record c { latest_cid = 0; latest_cid_count = 0 }) view

  unfoldable pub request_latest_state : CollabStateTransfer S O → ViewInfo → Requested S O
  unfolding request_in
  request_latest_state c view =
      request_in (receiving_state 0) request_state (record c { received_states = [] }) view

  retry : CollabStateTransfer S O → CstStatus S O → Result (CstStatus S O × CollabStateTransfer S O)
  retry c status = double c.curr_timeout >>= λ t. ok (status, record c { curr_timeout = t })

  time_out :
      CollabStateTransfer S O → ProtoPhase S O → Result (CstStatus S O × CollabStateTransfer S O)
  unfolding retry
  time_out c (receiving_cid _) = retry c ask_latest_cid
  time_out c (receiving_state _) = retry c ask_state
  time_out c init = ok (idle, c)
  time_out c (waiting_checkpoint _ _) = ok (idle, c)

  unfoldable pub timed_out :
      CollabStateTransfer S O → SeqNo → Result (CstStatus S O × CollabStateTransfer S O)
  unfolding time_out
  timed_out c seq = if not (next seq == c.cst_seq) then ok (idle, c) else time_out c c.phase
