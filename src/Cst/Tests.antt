-- ===== src/Cst/Tests.antt =====
-- State transfer between four nodes at concrete messages.
use bafomet.Base.{
  ℕ, ◌<◌, some, ok, err, wrapped, consensus_log, [], ◌∷◌, ◌≡◌, ◌↔◌, refl, arith, get,
}
use bafomet.Collections.{assoc_map}
use bafomet.Ordering.SeqNo.{SeqNo}
use bafomet.Message.{Digest, Header}
use bafomet.Message.System.{
  RecoveryState, CstMessage, reply_latest_consensus_seq, request_state, reply_state, take_state,
}
use bafomet.Core.View.{ViewInfo}
use bafomet.Log.Types.{complete, empty_declog}
use bafomet.Log.Store.{StoredRequest, Log, snapshot}
use bafomet.Log.Store
use bafomet.Cst.State.{
  init, receiving_cid, receiving_state, CollabStateTransfer, ReceivedState, running, state, message,
  create, request_latest_state, request_latest_consensus_seq_no,
}
use bafomet.Cst.Process.{quiet, count_state, process_message}
use bafomet.Cst.Process.Requests.{process_message_request_dropped}
use bafomet.Cst.Process.Cids.{IsTally, IsOutcome, process_message-IsTally}
use bafomet.Cst.Process.States.{IsCounted, IsMajority, process_message-IsMajority}

abbrev TestLog : Type 0
TestLog = Log ℕ ℕ (assoc_map (StoredRequest ℕ))

abbrev Cst : Type 0
Cst = CollabStateTransfer ℕ ℕ

abbrev view : ViewInfo
view = record { seq = 0; params = record { n = 4; f = 1 } }

abbrev header : Digest → Header
header digest = record {
  version = 0;
  from = 2;
  to = 0;
  nonce = 5;
  length = 0;
  digest = digest;
  signature = 0;
}

abbrev log : TestLog
log = Store.create 2

abbrev recovery : RecoveryState ℕ ℕ
recovery = record {
  view = view;
  checkpoint = record { seq = 100; appstate = 55 };
  requests = [];
  declog = empty_declog;
}

abbrev ready : TestLog
ready = record log {
  checkpoint = complete (record { seq = 100; appstate = 55 });
  declog = empty_declog;
  decided = [];
}

abbrev fresh : Cst
fresh = create 1000

abbrev cid : SeqNo → CstMessage ℕ ℕ
cid seq = record { seq = 1; kind = reply_latest_consensus_seq seq }

zero_is_used : fresh.cst_seq < 2147483648
unfolding create
zero_is_used = omega arith

process_message_request_dropped_example :
    (process_message view
        (request_latest_state fresh view).cst
        0
        log
        (message (header 3) (record { seq = 0; kind = reply_state recovery }))
      ≡ quiet running (request_latest_state fresh view).cst)
    × (process_message view
          (request_latest_consensus_seq_no fresh view).cst
          0
          log
          (message (header 3) (record { seq = 0; kind = reply_state recovery }))
        ≡ quiet running (request_latest_consensus_seq_no fresh view).cst)
unfolding create request_latest_state
process_message_request_dropped_example =
    process_message_request_dropped view fresh 0 log (header 3)
      (record { seq = 0; kind = reply_state recovery }) zero_is_used refl

abbrev ask : CstMessage ℕ ℕ
ask = record { seq = 4; kind = request_state }

no_snapshot : snapshot log view ≡ err (wrapped consensus_log "Checkpoint to be finalized")
unfolding snapshot Store.create
no_snapshot = refl

ready-snapshot : snapshot ready view ≡ ok recovery
unfolding snapshot
ready-snapshot = refl

abbrev idle_node : Cst
idle_node = record {
  latest_cid = 0;
  cst_seq = 1;
  latest_cid_count = 0;
  base_timeout = 1000;
  curr_timeout = 1000;
  received_states = [];
  phase = init;
}

-- Two replies were 7 and 9.
abbrev two_cids : Cst
two_cids = record idle_node { latest_cid = 9; latest_cid_count = 1; phase = receiving_cid 2 }

two_cids-IsTally : IsTally two_cids (9 ∷ 7 ∷ [])
two_cids-IsTally = (omega arith, (omega arith, (omega arith, tt)), ground arith)

process_message-IsTally_example :
    IsTally (process_message view two_cids 0 log (message (header 3) (cid 9))).cst (9 ∷ 9 ∷ 7 ∷ [])
    × IsOutcome view
        (9 ∷ 9 ∷ 7 ∷ [])
        (process_message view two_cids 0 log (message (header 3) (cid 9)))
process_message-IsTally_example =
    process_message-IsTally view two_cids 0 9 log (header 3) (cid 9) (9 ∷ 7 ∷ []) (omega arith) refl
      refl refl two_cids-IsTally

-- `n` states have come in, all of them with digest 3.
abbrev counted : ℕ → Cst
counted n = record idle_node {
  received_states = (3, record { count = n; state = recovery }) ∷ [];
  phase = receiving_state n;
}

counted-IsCounted : (n : ℕ) → n < 3 → IsCounted view (counted n) n
unfolding get
counted-IsCounted n h = (omega (arith, h), omega arith, (refl, tt))

abbrev answer : CstMessage ℕ ℕ
answer = record { seq = 1; kind = reply_state recovery }

taken : take_state answer ≡ some recovery
unfolding take_state
taken = refl

process_message-IsMajority_example :
    (((process_message view (counted 2) 0 log (message (header 3) answer)).status ≡ state recovery)
      ↔ ((d : Digest) × (r : ReceivedState ℕ ℕ) × IsMajority view
            (count_state 3 recovery (counted 2).received_states)
            recovery
            d
            r))
    × ((process_message view (counted 2) 0 log (message (header 3) answer)).cst.received_states
        ≡ [])
process_message-IsMajority_example =
    process_message-IsMajority view (counted 2) 0 log (header 3) answer recovery recovery 2 refl
      refl taken refl (counted-IsCounted 2 (omega arith))
