-- ===== src/Replica/Events.antt =====
-- The handlers that the phases of a replica share (bft/core/server/mod.rs), and
-- `install_recovery_state` (bft/cst/mod.rs).
pub mod Answered
pub mod Timeouts
mod Tests
use bafomet.Base.{
  ℕ, Bool, true, false, not, if◌then◌else◌, is_empty, Option, none, some, Result, ok, ◌>>=◌, List,
  [], ◌∷◌, ◌++◌, map,
}
use bafomet.Collections.{OrderedMap}
use bafomet.Crypto.{Hash, unique_digest}
use bafomet.Ordering.SeqNo.{SeqNo}
use bafomet.Message.{Header, RequestMessage, ReplyMessage}
use bafomet.Message.System.{RecoveryState}
use bafomet.Log.Store.{insert_request, clone_requests}
use bafomet.Log.Store
use bafomet.Log.Finalize.{finalize_checkpoint}
use bafomet.Executable.{UpdateReply, UpdateBatchReplies, install_state}
use bafomet.Consensus.State.{install_new_phase}
use bafomet.Cst.State.{
  CstStatus, ask_latest_cid, ask_state, nothing, Requested, needs_checkpoint,
  request_latest_consensus_seq_no, request_latest_state, timed_out,
}
use bafomet.Cst.Process as CstProcess
use bafomet.Sync.Types.{
  StoredRequest, SynchronizerStatus, requests_timed_out, Synchronizer, Timer, Outgoing,
}
use bafomet.Sync.Watch.{
  watch_request, watch_forwarded_requests, client_requests_timed_out, install_view,
}
use bafomet.Sync.Stops.{begin_view_change, forward_requests}
use bafomet.Replica.Types.{
  retrieving_state, sync_phase, Replica, TimeoutKind, cst, client_requests, Effect, send_sync,
  send_cst, send_reply, start_timer, execute, Updated,
}

module _ {S O P : Type 0} where
  abbrev pub timers : List Timer → List (Effect S O P)
  timers ts = map (λ t. start_timer t.0 (client_requests t.1)) ts

  abbrev pub requested : Requested S O → List (Effect S O P)
  requested q = send_cst q.sent ∷ start_timer q.timeout.0 (cst q.timeout.1) ∷ []

  reply_effect : UpdateReply P → Effect S O P
  reply_effect r = send_reply r.to (record { digest = r.digest; payload = r.payload })

  -- `execution_finished`
  unfoldable pub deliver_replies : UpdateBatchReplies P → List (Effect S O P)
  unfolding reply_effect
  deliver_replies replies = map reply_effect replies

module _ {S O P : Type 0} {R : OrderedMap (StoredRequest O)} where
  -- The end of `execution_finished_with_appstate`.
  answer_waiting : Replica S O R → Replica S O R × List (Effect S O P)
  answer_waiting r =
      let p =
        CstProcess.process_message r.synchronizer.tbo.view r.cst r.consensus.tbo.curr_seq r.log
          nothing in
      if needs_checkpoint r.cst then (record r { cst = p.cst }, map send_cst p.sent) else (r, [])

  unfoldable pub execution_finished_with_appstate :
      Replica S O R → UpdateBatchReplies P → S → Updated S O P R
  unfolding answer_waiting
  execution_finished_with_appstate r replies appstate = do
    let c = finalize_checkpoint r.log appstate
    _ ← c.0
    let a = answer_waiting (record r { log = c.1 })
    ok (a.0, deliver_replies replies ++ a.1)

  retry : CstStatus S O → Replica S O R → Replica S O R × List (Effect S O P)
  retry ask_latest_cid r =
      let q = request_latest_consensus_seq_no r.cst r.synchronizer.tbo.view in
      (record r { cst = q.cst; phase = retrieving_state }, requested q)
  retry ask_state r =
      let q = request_latest_state r.cst r.synchronizer.tbo.view in
      (record r { cst = q.cst; phase = retrieving_state }, requested q)
  retry _ r = (r, [])

  -- The number that the log gets is the one after the consensus was moved.
  unfoldable pub install_recovery_state : Replica S O R → RecoveryState S O → Updated S O P R
  install_recovery_state r rs = do
    c ← install_new_phase r.consensus rs
    ok (
      record r {
        synchronizer = install_view rs.view r.synchronizer;
        consensus = c;
        log = Store.install_state r.log c.tbo.curr_seq rs;
      },
      execute (install_state rs.checkpoint.appstate rs.requests) ∷ [],
    )

module _ {S O P : Type 0} {R : OrderedMap (StoredRequest O)} (H : Hash) (now : ℕ) where
  -- A request of a client: `watch_request` and `log.insert`.
  unfoldable pub request_received :
      Replica S O R → Header → RequestMessage O → Replica S O R × List (Effect S O P)
  request_received r h m =
      let w = watch_request now (unique_digest H h) r.synchronizer in
      (record r { synchronizer = w.0; log = insert_request H r.log h m }, timers w.1)

  unfoldable pub forwarded_requests_received :
      Replica S O R → List (StoredRequest O) → Replica S O R × List (Effect S O P)
  forwarded_requests_received r requests =
      let w = watch_forwarded_requests H now requests r.synchronizer r.log in
      (record r { synchronizer = w.0; log = w.1 }, timers w.2)

  forward_some : Replica S O R → List ℕ → List (Effect S O P)
  forward_some r digests =
      if is_empty digests
      then []
      else map send_sync (forward_requests H (clone_requests r.log digests) r.synchronizer)

  stop_some : Replica S O R → List ℕ → Replica S O R × List (Effect S O P)
  stop_some r digests =
      let b = begin_view_change H (some (clone_requests r.log digests)) r.synchronizer in
      if is_empty digests
      then (r, [])
      else (record r { synchronizer = b.0; phase = sync_phase }, map send_sync b.1)

  requests_timed : SynchronizerStatus → Replica S O R → Replica S O R × List (Effect S O P)
  unfolding forward_some stop_some
  requests_timed (requests_timed_out forwarded stopped) r =
      let s = stop_some r stopped in (s.0, forward_some r forwarded ++ s.1)
  requests_timed _ r = (r, [])

  unfoldable pub timeout_received : Replica S O R → TimeoutKind → Updated S O P R
  unfolding retry requests_timed
  timeout_received r (cst seq) = do t ← timed_out r.cst seq; ok (retry t.0 (record r { cst = t.1 }))
  timeout_received r (client_requests seq) =
      let t = client_requests_timed_out now seq r.synchronizer in
      let s = requests_timed t.0 (record r { synchronizer = t.1 }) in ok (s.0, timers t.2 ++ s.1)
