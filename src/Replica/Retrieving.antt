-- ===== src/Replica/Retrieving.antt =====
-- A replica that retrieves state: `update_retrieving_state` (bft/core/server/mod.rs), with the
-- message that it receives as an argument.
use bafomet.Base.{
  ℕ, if◌then◌else◌, none, unwrap_or, ok, err, panic, wrapped, core_server, ◌>>=◌, [], ◌++◌, map,
}
use bafomet.Collections.{OrderedMap}
use bafomet.Crypto.{Hash}
use bafomet.Ordering.SeqNo.{SeqNo, lt_seq}
use bafomet.Message.{Header}
use bafomet.Message.System.{
  SystemMessage, request, reply, consensus, cst, view_change_msg, forwarded_requests, CstMessage,
}
use bafomet.Consensus.Tbo as ConsensusTbo
use bafomet.Consensus.State.{install_sequence_number}
use bafomet.Cst.State.{
  CstStatus, idle, running, ask_latest_cid, ask_state, seq_no, state, message,
  request_latest_consensus_seq_no, request_latest_state,
}
use bafomet.Cst.Process as CstProcess
use bafomet.Sync.Types.{StoredRequest}
use bafomet.Sync.Tbo as SyncTbo
use bafomet.Replica.Types.{
  normal_phase, Replica, Incoming, system, timeout, execution_finished,
  execution_finished_with_appstate, connected_tx, connected_rx, disconnected_tx, disconnected_rx,
  send_cst, Updated,
}
use bafomet.Replica.Events.{
  requested, deliver_replies, request_received, forwarded_requests_received, timeout_received,
  install_recovery_state,
}

module _ {S O : Type 0} {R : OrderedMap (StoredRequest O)} where
  -- The end of a state transfer: back to the phase that was put aside.
  unfoldable pub take_phase : Replica S O R → Replica S O R
  take_phase r = record r { phase = unwrap_or r.phase_stack normal_phase; phase_stack = none }

module _ {S O P : Type 0} {R : OrderedMap (StoredRequest O)} where
  -- The latest number is known.
  unfoldable pub latest_known : Replica S O R → SeqNo → Updated S O P R
  latest_known r seq =
      if lt_seq r.consensus.tbo.curr_seq seq
      then (do
        c ← install_sequence_number r.consensus seq
        let q = request_latest_state r.cst r.synchronizer.tbo.view
        ok (record r { consensus = c; cst = q.cst }, requested q))
      else ok (record r { phase = normal_phase }, [])

  unfoldable pub cst_status : CstStatus S O → Replica S O R → Updated S O P R
  unfolding take_phase latest_known
  cst_status running r = ok (r, [])
  cst_status (state rs) r = do u ← install_recovery_state r rs; ok (take_phase u.0, u.1)
  cst_status (seq_no seq) r = latest_known r seq
  cst_status ask_latest_cid r =
      let q = request_latest_consensus_seq_no r.cst r.synchronizer.tbo.view in
      ok (record r { cst = q.cst }, requested q)
  cst_status ask_state r =
      let q = request_latest_state r.cst r.synchronizer.tbo.view in
      ok (record r { cst = q.cst }, requested q)
  cst_status idle r = err (wrapped core_server "Invalid state reached!")

  -- A state transfer message, with what the status leads to.
  unfoldable pub cst_received : Replica S O R → Header → CstMessage S O → Updated S O P R
  cst_received r h m = do
    let p =
        CstProcess.process_message r.synchronizer.tbo.view r.cst r.consensus.tbo.curr_seq r.log
          (message h m)
    u ← cst_status p.status (record r { cst = p.cst })
    ok (u.0, map send_cst p.sent ++ u.1)

module _ {S O P : Type 0} {R : OrderedMap (StoredRequest O)} (H : Hash) (now : ℕ) where
  unfoldable pub system_received : Replica S O R → Header → SystemMessage S O P → Updated S O P R
  unfolding cst_received
  system_received r h (forwarded_requests requests) =
      ok (forwarded_requests_received H now r requests)
  system_received r h (request m) = ok (request_received H now r h m)
  system_received r h (consensus m) = ok (
    record r { consensus = record r.consensus { tbo = ConsensusTbo.queue r.consensus.tbo h m } },
    [],
  )
  system_received r h (view_change_msg m) = ok (
    record r {
      synchronizer = record r.synchronizer { tbo = SyncTbo.queue r.synchronizer.tbo h m };
    },
    [],
  )
  system_received r h (cst m) = cst_received r h m
  system_received r h (reply _) = panic

  unfoldable pub update_retrieving_state : Replica S O R → Incoming S O P → Updated S O P R
  unfolding system_received
  update_retrieving_state r (system h m) = system_received r h m
  update_retrieving_state r (timeout kind) = timeout_received H now r kind
  update_retrieving_state r (execution_finished replies) = ok (r, deliver_replies replies)
  update_retrieving_state r (execution_finished_with_appstate replies _) =
      ok (r, deliver_replies replies)
  update_retrieving_state r (connected_tx _) = ok (r, [])
  update_retrieving_state r (connected_rx _) = ok (r, [])
  update_retrieving_state r (disconnected_tx _) = panic
  update_retrieving_state r (disconnected_rx _) = panic
