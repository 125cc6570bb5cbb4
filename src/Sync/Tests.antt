-- ===== src/Sync/Tests.antt =====
-- The view change of a replica among four at concrete messages.
use bafomet.Consensus.State.{targets}
use bafomet.Base.{ℕ, none, ok, [], ◌∷◌, ◌≡◌, refl, arith, contains_key, get, insert}
use bafomet.Collections.{assoc_map}
use bafomet.Ordering.SeqNo.{next}
use bafomet.Message.{NodeId, Header}
use bafomet.Message.System.{
  ViewChangeMessage, view_change, stop, stop_data, sync, no_collects, collect, send,
}
use bafomet.Core.View.{ViewInfo, next_view, leader}
use bafomet.Log.Types.{CollectData}
use bafomet.Log.Decision.{Stored, collect_data}
use bafomet.Log.Store.{Log}
use bafomet.Log.Store
use bafomet.Consensus.State.{Consensus}
use bafomet.Consensus.State
use bafomet.Sync.Samples.{sums, zeros, node, view}
use bafomet.Sync.Types.{
  StoredRequest, bound, FinalizeState, stopping, syncing, idle, running, Synchronizer, change,
}
use bafomet.Sync.Tbo
use bafomet.Sync.Watch.{create, watch_all_requests, install_view}
use bafomet.Sync.Stops.{begin_view_change, add_stopped_requests}
use bafomet.Sync.Finalize.{Processed, finalize}
use bafomet.Sync.Finalize.Proposal.{finalized, finalize_lem}
use bafomet.Log.Store.{view_change_propose}
use bafomet.Sync.Process.{only, process_message}
use bafomet.Base.{some}
use bafomet.Sync.Watch.{watch_request}
use bafomet.Sync.Types.{running, stopping2}
use bafomet.Sync.Process.Signed.{process_message_unsigned}
use bafomet.Sync.Process.Twice.{process_message_twice}
use bafomet.Sync.Process.Phases.{CountsVotes}
use bafomet.Sync.Process.Phases.Syncing.{process_message-CountsVotes}

abbrev TestLog : Type 0
TestLog = Log ℕ ℕ (assoc_map (StoredRequest ℕ))

abbrev header : NodeId → ℕ → Header
header from length = record {
  version = 0;
  from = from;
  to = 0;
  nonce = from;
  length = length;
  digest = 9;
  signature = 0;
}

abbrev log : TestLog
log = Store.create 2

abbrev consensus : Consensus
consensus = State.create 0 2

abbrev idle_sync : Synchronizer ℕ
idle_sync = create 10 view

abbrev stop_message : ViewChangeMessage ℕ
stop_message = view_change 1 (stop [])

-- No other replica has asked for a view change.
abbrev first_stop : Synchronizer ℕ
first_stop = record idle_sync { phase = stopping 0 }

abbrev counted : Processed ℕ ℕ (assoc_map (StoredRequest ℕ))
counted =
    only sums zeros node 3 idle (record idle_sync { phase = stopping 1; stopped = (2, []) ∷ [] })
      consensus log

first_counted :
    process_message sums zeros node 3 first_stop consensus log (header 2 8) stop_message
    ≡ ok counted
unfolding process_message insert contains_key get next create Tbo.create
first_counted = refl

process_message-CountsVotes_example : CountsVotes counted.sync
unfolding create
process_message-CountsVotes_example =
    process_message-CountsVotes sums zeros node 3 first_stop consensus log (header 2 8) stop_message
      counted (refl, refl) first_counted

-- Node 3 has asked for a view change.
abbrev one_stop : Synchronizer ℕ
one_stop = record idle_sync { phase = stopping 1; stopped = (3, []) ∷ [] }

abbrev collected : CollectData
collected = record {
  incomplete_proof = record { in_exec = 0; write_set = []; quorum_writes = none };
  last_proof = none;
}

abbrev view1 : ViewInfo
view1 = record view { seq = 1 }

abbrev changed : Processed ℕ ℕ (assoc_map (StoredRequest ℕ))
changed =
    record (only sums zeros node 3 running
      (record idle_sync {
        phase = syncing;
        timeout_seq = 1;
        tbo = record idle_sync.tbo { view = view1 };
      })
      consensus log) { sent = change (send (view_change 1 (stop_data collected)) 1) ∷ [] }

-- Two nodes of the quorum of three have asked for it.
process_message_twice_example : view1 ≡ next_view view
unfolding process_message insert contains_key get next create Tbo.create begin_view_change
    collect_data bafomet.Log.Decision.to_be_decided bafomet.Log.Decision.write_set_loop
    add_stopped_requests Store.create bafomet.Log.Decision.quorum_writes_loop
    bafomet.Log.Decision.last_decision install_view leader bafomet.Log.Decision.executing
    watch_all_requests next_view
process_message_twice_example =
    process_message_twice sums zeros node 3 1 one_stop consensus log (header 2 8) stop_message []
      changed refl refl refl refl (omega arith) refl refl

abbrev waiting : Synchronizer ℕ
waiting = record idle_sync { phase = syncing; tbo = record idle_sync.tbo { view = view1 } }

abbrev sync_message : ViewChangeMessage ℕ
sync_message =
    view_change 1 (sync [] (collect (header 2 8) (view_change 1 (stop_data collected)) no_collects))

process_message_unsigned_example :
    process_message sums zeros node 3 waiting consensus log (header 1 8) sync_message
    ≡ ok (only sums zeros node 3 running waiting consensus log)
unfolding create Tbo.create leader
process_message_unsigned_example =
    process_message_unsigned sums zeros node 3 waiting consensus log (header 1 8) sync_message []
      (collect (header 2 8) (view_change 1 (stop_data collected)) no_collects) refl refl refl refl
      (λ e. ground (arith, e), tt)

abbrev final : FinalizeState
final = record { curr_cid = 0; proposed = 7 ∷ []; sound = bound 9 }

-- The value that is bound is not in the log, so the one of the leader is taken.
finalize_lem_example :
    finalize sums zeros node final waiting consensus log
    ≡ ok (finalized sums zeros node final waiting consensus log)
unfolding State.create Store.create
finalize_lem_example = finalize_lem sums zeros node final waiting consensus log (omega arith)

-- It watches request 8, and asks for a view change.
abbrev watching_one : Synchronizer ℕ
watching_one = (watch_request 3 8 idle_sync).0

abbrev asking : Synchronizer ℕ
asking = (begin_view_change sums (some []) watching_one).0

-- Node 2 asks for it, too.
abbrev asked : Processed ℕ ℕ (assoc_map (StoredRequest ℕ))
asked =
    only sums zeros node 4 running (record asking { phase = stopping2 1; stopped = (2, []) ∷ [] })
      consensus log
