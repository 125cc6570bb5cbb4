-- ===== src/Replica/Normal.antt =====
-- A replica in its normal phase: `update_normal_phase` and `run` (bft/core/server/mod.rs). The
-- message that the view change receives first, if it does, and the next one are arguments.
pub mod Executed
mod Tests
use bafomet.Base.{
  ℕ, Bool, true, false, if◌then◌else◌, Option, none, some, Result, ok, err, panic, ◌>>=◌, List, [],
  ◌∷◌, ◌++◌, map,
}
use bafomet.Collections.{OrderedMap}
use bafomet.Crypto.{Hash}
use bafomet.Ordering.SeqNo.{SeqNo}
use bafomet.Message.{Digest, Header, ConsensusMessage}
use bafomet.Message.System.{
  SystemMessage, request, reply, consensus, cst, view_change_msg, forwarded_requests,
  ViewChangeMessage,
}
use bafomet.Message.Wire.{Signing}
use bafomet.Log.Types.{Info, nil, begin_checkpoint}
use bafomet.Log.Store.{Log, next_batch, has_request}
use bafomet.Log.Finalize.{finalize_batch}
use bafomet.Executable.{UpdateBatch, ExecutionRequest, update_batch, update_and_get_appstate}
use bafomet.Consensus.Tbo as ConsensusTbo
use bafomet.Consensus.State.{
  Consensus, ConsensusStatus, voted_twice, deciding, decided, propose, next_instance,
}
use bafomet.Consensus.Poll.{ConsensusPollStatus, recv, try_propose_and_recv, next_message, poll}
use bafomet.Consensus.Process as ConsensusProcess
use bafomet.Sync.Types.{
  StoredRequest, SynchronizerStatus, idle, running, new_view, ask_cst, requests_timed_out,
  Synchronizer,
}
use bafomet.Sync.Tbo.{can_process_stops}
use bafomet.Sync.Watch.{unwatch_request}
use bafomet.Sync.Finalize.{Node}
use bafomet.Sync.Process as SyncProcess
use bafomet.Replica.Types.{
  ReplicaPhase, retrieving_state, sync_phase, normal_phase, Replica, Incoming, system, timeout,
  execution_finished, execution_finished_with_appstate, connected_tx, connected_rx, disconnected_tx,
  disconnected_rx, Effect, send_consensus, execute, Updated,
}
use bafomet.Replica.Events.{
  deliver_replies, request_received, forwarded_requests_received, timeout_received,
}
use bafomet.Replica.Events as Events
use bafomet.Replica.Retrieving.{update_retrieving_state}
use bafomet.Replica.Syncing.{
  invalid_state, with_processed, sync_effects, cst_served, update_sync_phase,
}

-- `unwatch_request` for each digest.
unfoldable pub unwatch_requests : {O : Type 0} → List Digest → Synchronizer O → Synchronizer O
unwatch_requests [] s = s
unwatch_requests (d ∷ ds) s = unwatch_requests ds (unwatch_request d s)

-- What the executor is asked to do with a batch.
unfoldable pub to_execute : {S O : Type 0} → Info → UpdateBatch O → ExecutionRequest S O
to_execute nil batch = update_batch batch
to_execute begin_checkpoint batch = update_and_get_appstate batch

module _ {S O : Type 0} {R : OrderedMap (StoredRequest O)} where
  abbrev pub signalled : Replica S O R → Replica S O R
  signalled r = record r {
    consensus = record r.consensus { tbo = ConsensusTbo.signal r.consensus.tbo };
  }

module _ {S O P : Type 0} {R : OrderedMap (StoredRequest O)} where
  -- What a consensus message leads to; a vote that was cast twice is a `todo!`.
  unfoldable pub consensus_status : SeqNo → ConsensusStatus → Replica S O R → Updated S O P R
  unfolding unwatch_requests to_execute
  consensus_status seq deciding r = ok (r, [])
  consensus_status seq (voted_twice _) r = panic
  consensus_status seq (decided digests) r = do
    let f = finalize_batch r.log seq digests
    done ← f.0
    ok (
      record r {
        synchronizer = unwatch_requests digests r.synchronizer;
        log = f.1;
        consensus = next_instance r.consensus;
      },
      execute (to_execute done.0 done.1) ∷ [],
    )

  sync_status : SynchronizerStatus → Replica S O R → List (Effect S O P) → Updated S O P R
  sync_status idle r sent = ok (r, sent)
  sync_status running r sent = ok (record r { phase = sync_phase }, sent)
  sync_status new_view r sent = invalid_state
  sync_status ask_cst r sent = invalid_state
  sync_status (requests_timed_out _ _) r sent = invalid_state

module _ {S O P : Type 0} {R : OrderedMap (StoredRequest O)} (H : Hash) (G : Signing)
    (node : Node G) (now : ℕ) where
  unfoldable pub consensus_received : Replica S O R → Header → ConsensusMessage → Updated S O P R
  unfolding consensus_status
  consensus_received r h m = do
    let seq = r.consensus.tbo.curr_seq
    p ← ConsensusProcess.process_message node.id r.synchronizer.tbo.view r.consensus r.log h m
    u ← consensus_status seq p.status (record r { consensus = p.consensus; log = p.log })
    ok (signalled u.0, map send_consensus p.sent ++ u.1)

  unfoldable pub change_received : Replica S O R → Header → ViewChangeMessage O → Updated S O P R
  unfolding with_processed sync_status
  change_received r h m = do
    p ← SyncProcess.process_message H G node now r.synchronizer r.consensus r.log h m
    sync_status p.status (with_processed r p) (sync_effects p)

  system_received : Replica S O R → Header → SystemMessage S O P → Updated S O P R
  unfolding consensus_received change_received cst_served
  system_received r h (forwarded_requests requests) =
      ok (forwarded_requests_received H now r requests)
  system_received r h (request m) = ok (request_received H now r h m)
  system_received r h (cst m) = cst_served r h m
  system_received r h (view_change_msg m) = change_received r h m
  system_received r h (consensus m) = consensus_received r h m
  system_received r h (reply _) = panic

  unfoldable pub message_received : Replica S O R → Incoming S O P → Updated S O P R
  unfolding system_received
  message_received r (system h m) = system_received r h m
  message_received r (timeout kind) = timeout_received H now r kind
  message_received r (execution_finished replies) = ok (r, deliver_replies replies)
  message_received r (execution_finished_with_appstate replies appstate) =
      Events.execution_finished_with_appstate r replies appstate
  message_received r (connected_tx _) = ok (r, [])
  message_received r (connected_rx _) = ok (r, [])
  message_received r (disconnected_tx _) = panic
  message_received r (disconnected_rx _) = panic

  -- The proposal of a batch, if there is one.
  propose_batch : Replica S O R → Option (List Digest) → Replica S O R × List (Effect S O P)
  propose_batch r none = (r, [])
  propose_batch r (some digests) =
      let c = propose node.id r.synchronizer.tbo.view r.consensus digests in
      (record r { consensus = c.0 }, map send_consensus c.1)

  with_consensus : Replica S O R → ConsensusPollStatus → Incoming S O P → Updated S O P R
  unfolding message_received propose_batch
  with_consensus r recv received = message_received r received
  with_consensus r (next_message h m) received = message_received r (system h (consensus m))
  with_consensus r try_propose_and_recv received = do
    let b = next_batch r.log
    let proposed = propose_batch (record r { log = b.1 }) b.0
    u ← message_received proposed.0 received
    ok (u.0, proposed.1 ++ u.1)

  -- After the STOP messages.
  unfoldable pub poll_consensus : Replica S O R → Incoming S O P → Updated S O P R
  unfolding with_consensus
  poll_consensus r received =
      let p = poll (has_request r.log) r.consensus in
      with_consensus (record r { consensus = p.1 }) p.0 received

  after_stops : Bool × Replica S O R × List (Effect S O P) → Incoming S O P → Updated S O P R
  unfolding poll_consensus
  after_stops (true, r, sent) received = ok (record r { phase = sync_phase }, sent)
  after_stops (false, r, sent) received = do u ← poll_consensus r received; ok (u.0, sent ++ u.1)

  unfoldable pub update_normal_phase :
      Replica S O R → Incoming S O P → Incoming S O P → Updated S O P R
  unfolding after_stops poll_consensus
  update_normal_phase r first received =
      if can_process_stops r.synchronizer.tbo
      then (update_sync_phase H G node now r first >>= λ u. after_stops u received)
      else poll_consensus r received

  update_phase : ReplicaPhase → Replica S O R → Incoming S O P → Incoming S O P → Updated S O P R
  unfolding update_normal_phase
  update_phase retrieving_state r first received = update_retrieving_state H now r first
  update_phase normal_phase r first received = update_normal_phase r first received
  update_phase sync_phase r first received = do
    u ← update_sync_phase H G node now r first
    ok (u.1, u.2)

  -- One turn of the loop of `run`.
  unfoldable pub run : Replica S O R → Incoming S O P → Incoming S O P → Updated S O P R
  unfolding update_phase
  run r first received = update_phase r.phase r first received
