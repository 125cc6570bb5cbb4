-- ===== src/Replica/Events/Tests.antt =====
-- The handlers of a replica at concrete messages.
use bafomet.Base.{ℕ, true, false, ok, List, [], ◌∷◌, ◌≡◌, refl, get}
use bafomet.Collections.{assoc_map}
use bafomet.Ordering.SeqNo.{next}
use bafomet.Message.System.{
  view_change, stop, send, broadcast, CstMessage, request_state, reply_state,
}
use bafomet.Log.Types.{partial}
use bafomet.Log.Store.{Log, insert_consensus}
use bafomet.Log.Store
use bafomet.Log.Finalize.{finalize_checkpoint}
use bafomet.Executable.{UpdateBatchReplies}
use bafomet.Consensus.State.{targets}
use bafomet.Cst.State as CstState
use bafomet.Sync.Samples.{sums, view}
use bafomet.Sync.Types.{StoredRequest, timed_out_once, timed_out, stopping2, change}
use bafomet.Sync.Tbo
use bafomet.Sync.Watch as Watch
use bafomet.Replica.Samples.{TestReplica, TestEffect, header, new_replica}
use bafomet.Replica.Types.{
  sync_phase, normal_phase, Replica, send_reply, send_cst, send_sync, start_timer, client_requests,
  create,
}
use bafomet.Replica.Events.{timeout_received, execution_finished_with_appstate}
use bafomet.Replica.Events.Answered.{execution_finished_with_appstate-answers}
use bafomet.Replica.Events.Timeouts.{Begins, timeout_received-Begins}

abbrev state_message : CstMessage ℕ ℕ
state_message = record { seq = 0; kind = request_state }

-- A request for the state waits for checkpoint 6.
abbrev checkpointing : TestReplica
checkpointing = record new_replica {
  cst = record new_replica.cst { phase = CstState.waiting_checkpoint (header 3) state_message };
  log = record new_replica.log { checkpoint = partial 6; decided = 8 ∷ [] };
}

abbrev replies : UpdateBatchReplies ℕ
replies = record { to = 1000; digest = 5; payload = 1 } ∷ []

execution_finished_with_appstate-answers_example :
    let l = (finalize_checkpoint checkpointing.log 40).1 in
    let sent : List TestEffect =
      send_reply 1000 (record { digest = 5; payload = 1 })
      ∷ send_cst (
          send
            (record {
              seq = 0;
              kind = reply_state (record {
                view = view;
                checkpoint = record { seq = 6; appstate = 40 };
                requests = [];
                declog = l.declog;
              });
            })
            3)
      ∷ [] in
    execution_finished_with_appstate checkpointing replies 40
    ≡ ok (record checkpointing { log = l; cst = new_replica.cst }, sent)
unfolding create bafomet.Replica.Events.deliver_replies CstState.create Watch.create Tbo.create
execution_finished_with_appstate-answers_example =
    execution_finished_with_appstate-answers checkpointing replies 40 6 (header 3) state_message
      refl refl

-- Request 8 was forwarded long ago.
abbrev late_request : TestReplica
late_request = record new_replica {
  synchronizer = record new_replica.synchronizer {
    watching_timeouts = true;
    timeout_seq = 1;
    watching = (8, timed_out_once 0) ∷ [];
  };
}

abbrev begun : Replica ℕ ℕ (assoc_map (StoredRequest ℕ)) × List TestEffect
begun = (
  record late_request {
    phase = sync_phase;
    synchronizer = record late_request.synchronizer {
      phase = stopping2 0;
      timeout_seq = 3;
      watching = (8, timed_out) ∷ [];
    };
  },
  start_timer 120000000000 (client_requests 1)
      ∷ send_sync (change (broadcast (view_change 1 (stop [])) (targets view)))
      ∷ [],
)

timeout_received-Begins_example : Begins false normal_phase begun.0
unfolding create Watch.create next timeout_received Watch.client_requests_timed_out
    bafomet.Sync.Stops.begin_view_change Tbo.create Store.clone_requests get Store.create assoc_map
timeout_received-Begins_example =
    timeout_received-Begins sums 120000000001 late_request 0 begun refl refl refl refl
