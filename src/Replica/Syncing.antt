-- ===== src/Replica/Syncing.antt =====
-- A replica in a view change: `update_sync_phase` (bft/core/server/mod.rs), with the message that it
-- receives as an argument.
pub mod Unasked
mod Tests
use bafomet.Base.{
  ℕ, Bool, true, false, Option, none, some, Result, ok, err, panic, wrapped, core_server, ◌>>=◌,
  List, [], ◌∷◌, ◌++◌, map,
}
use bafomet.Collections.{OrderedMap}
use bafomet.Crypto.{Hash}
use bafomet.Message.{Header}
use bafomet.Message.System.{
  SystemMessage, request, reply, consensus, cst, view_change_msg, forwarded_requests, CstMessage,
  ViewChangeMessage,
}
use bafomet.Message.Wire.{Signing}
use bafomet.Consensus.Tbo as ConsensusTbo
use bafomet.Cst.State as CstState
use bafomet.Cst.State.{CstStatus}
use bafomet.Cst.Process as CstProcess
use bafomet.Sync.Types.{
  StoredRequest, SynchronizerStatus, idle, running, new_view, ask_cst, requests_timed_out,
  SynchronizerPollStatus, recv, next_message, resume_view_change,
}
use bafomet.Sync.Tbo as SyncTbo
use bafomet.Sync.Finalize
use bafomet.Sync.Finalize.{Node, Processed}
use bafomet.Sync.Poll.{poll}
use bafomet.Sync.Process.{process_message}
use bafomet.Replica.Types.{
  ReplicaPhase, retrieving_state, sync_phase, normal_phase, Replica, Incoming, system, timeout,
  execution_finished, execution_finished_with_appstate, connected_tx, connected_rx, disconnected_tx,
  disconnected_rx, Effect, send_sync, send_cst, Updated,
}
use bafomet.Replica.Events.{
  timers, deliver_replies, request_received, forwarded_requests_received, timeout_received,
}
use bafomet.Replica.Events as Events

-- With whether the replica stays in the view change.
abbrev pub SyncUpdated : (S O P : Type 0) → OrderedMap (StoredRequest O) → Type 0
SyncUpdated S O P R = Result (Bool × Replica S O R × List (Effect S O P))

abbrev pub invalid_state {ℓ} : {A : Type ℓ} → Result A
invalid_state = err (wrapped core_server "Invalid state reached!")

module _ {S O : Type 0} {R : OrderedMap (StoredRequest O)} where
  -- The replica after a message that the synchronizer processed, which is then signalled.
  unfoldable pub with_processed : Replica S O R → Processed S O R → Replica S O R
  with_processed r p = record r {
    synchronizer = record p.sync { tbo = SyncTbo.signal p.sync.tbo };
    consensus = p.consensus_;
    log = p.log;
  }

module _ {S O P : Type 0} {R : OrderedMap (StoredRequest O)} where
  abbrev pub sync_effects : Processed S O R → List (Effect S O P)
  sync_effects p = map send_sync p.sent ++ timers p.timers

  -- Outside of a state transfer, only requests of others are answered.
  unfoldable pub cst_served : Replica S O R → Header → CstMessage S O → Updated S O P R
  cst_served r h m =
      let p =
        CstProcess.process_message r.synchronizer.tbo.view r.cst r.consensus.tbo.curr_seq r.log
          (CstState.message h m) in
      elim p.status [
        | CstState.idle ↦ ok (record r { cst = p.cst }, map send_cst p.sent)
        | _ ↦ invalid_state
      ]

  sync_status : SynchronizerStatus → Replica S O R → List (Effect S O P) → SyncUpdated S O P R
  sync_status idle r sent = ok (false, r, sent)
  sync_status running r sent = ok (true, r, sent)
  sync_status new_view r sent = ok (false, record r { phase = normal_phase }, sent)
  sync_status ask_cst r sent =
      ok (true, record r { phase = retrieving_state; phase_stack = some sync_phase }, sent)
  sync_status (requests_timed_out _ _) r sent = invalid_state

  resumed : Replica S O R → Option (Processed S O R) → SyncUpdated S O P R
  resumed r none = ok (false, record r { phase = normal_phase }, [])
  resumed r (some p) = ok (
    false,
    record r { phase = normal_phase; synchronizer = p.sync; consensus = p.consensus_; log = p.log },
    sync_effects p,
  )

  stays : Updated S O P R → SyncUpdated S O P R
  stays u = u >>= λ x. ok (true, x.0, x.1)

module _ {S O P : Type 0} {R : OrderedMap (StoredRequest O)} (H : Hash) (G : Signing)
    (node : Node G) (now : ℕ) where
  unfoldable pub change_received :
      Replica S O R → Header → ViewChangeMessage O → SyncUpdated S O P R
  unfolding with_processed sync_status
  change_received r h m = do
    p ← process_message H G node now r.synchronizer r.consensus r.log h m
    sync_status p.status (with_processed r p) (sync_effects p)

  system_received : Replica S O R → Header → SystemMessage S O P → SyncUpdated S O P R
  unfolding change_received stays cst_served
  system_received r h (consensus m) = ok (
    true,
    record r { consensus = record r.consensus { tbo = ConsensusTbo.queue r.consensus.tbo h m } },
    [],
  )
  system_received r h (forwarded_requests requests) =
      stays (ok (forwarded_requests_received H now r requests))
  system_received r h (request m) = stays (ok (request_received H now r h m))
  system_received r h (cst m) = stays (cst_served r h m)
  system_received r h (view_change_msg m) = change_received r h m
  system_received r h (reply _) = panic

  unfoldable pub message_received : Replica S O R → Incoming S O P → SyncUpdated S O P R
  unfolding system_received stays
  message_received r (system h m) = system_received r h m
  message_received r (timeout kind) = stays (timeout_received H now r kind)
  message_received r (execution_finished replies) = ok (true, r, deliver_replies replies)
  message_received r (execution_finished_with_appstate replies appstate) =
      stays (Events.execution_finished_with_appstate r replies appstate)
  message_received r (connected_tx _) = ok (true, r, [])
  message_received r (connected_rx _) = ok (true, r, [])
  message_received r (disconnected_tx _) = panic
  message_received r (disconnected_rx _) = panic

  with_sync : Replica S O R → SynchronizerPollStatus O → Incoming S O P → SyncUpdated S O P R
  unfolding message_received resumed
  with_sync r recv received = message_received r received
  with_sync r (next_message h m) received = message_received r (system h (view_change_msg m))
  with_sync r resume_view_change received = do
    p ← Finalize.resume_view_change H G node r.synchronizer r.consensus r.log
    resumed r p

  unfoldable pub update_sync_phase : Replica S O R → Incoming S O P → SyncUpdated S O P R
  unfolding with_sync
  update_sync_phase r received =
      let p = poll r.synchronizer in with_sync (record r { synchronizer = p.1 }) p.0 received
