-- ===== src/Replica/Events/Answered.antt =====
-- What a completed checkpoint and a timeout lead to (bft/core/server/mod.rs).
use bafomet.Base.{ok, ◌>>=◌, List, [], ◌∷◌, ◌++◌, ◌≡◌, refl, some}
use bafomet.Collections.{OrderedMap}
use bafomet.Ordering.SeqNo.{SeqNo}
use bafomet.Message.{Header}
use bafomet.Message.System.{RecoveryState, CstMessage, reply_state, send}
use bafomet.Log.Store.{Log, snapshot}
use bafomet.Log.Finalize.Checkpoints.{pending, finalize_checkpoint-snapshot}
use bafomet.Log.Finalize.{finalize_checkpoint}
use bafomet.Executable.{UpdateBatchReplies}
use bafomet.Cst.State.{init, waiting_checkpoint, nothing, needs_checkpoint}
use bafomet.Cst.Process.Requests.{process_message_answers}
use bafomet.Sync.Types.{StoredRequest}
use bafomet.Replica.Types.{Replica, Effect, send_cst}
use bafomet.Replica.Events.{deliver_replies, answer_waiting, execution_finished_with_appstate}

module _ {S O P : Type 0} {R : OrderedMap (StoredRequest O)} where
  answer_waiting_lem :
      (r : Replica S O R) (h : Header) (m : CstMessage S O) (s : RecoveryState S O)
      → r.cst.phase ≡ waiting_checkpoint h m
      → snapshot r.log r.synchronizer.tbo.view ≡ ok s
      → let a : Replica S O R × List (Effect S O P) = answer_waiting r in
        a ≡ (
          record r { cst = record r.cst { phase = init } },
          send_cst (send (record { seq = m.seq; kind = reply_state s }) h.from) ∷ [],
        )
  unfolding answer_waiting needs_checkpoint
  answer_waiting_lem r h m s p f =
      rw
        (
          process_message_answers r.synchronizer.tbo.view r.cst r.consensus.tbo.curr_seq r.log h m s
              nothing p f,
          p,
        )
        refl

  -- A state that the executor delivers for a checkpoint that was begun, with or without an earlier one
  -- that is complete, completes it for the instance that began it, and the replica sends, after the replies of the batch, exactly that state to the replica that waits for one.
  pub execution_finished_with_appstate-answers :
      (r : Replica S O R) (replies : UpdateBatchReplies P) (appstate : S) (seq : SeqNo) (h : Header)
      (m : CstMessage S O)
      → pending r.log.checkpoint ≡ some seq
      → r.cst.phase ≡ waiting_checkpoint h m
      → let l : Log S O R = (finalize_checkpoint r.log appstate).1 in
        let s : RecoveryState S O = record {
          view = r.synchronizer.tbo.view;
          checkpoint = record { seq = seq; appstate = appstate };
          requests = [];
          declog = l.declog;
        } in
        execution_finished_with_appstate r replies appstate
        ≡ ok (
          record r { log = l; cst = record r.cst { phase = init } },
          deliver_replies replies
              ++ send_cst (send (record { seq = m.seq; kind = reply_state s }) h.from) ∷ [],
        )
  unfolding execution_finished_with_appstate
  execution_finished_with_appstate-answers r replies appstate seq h m c p =
      let f = finalize_checkpoint-snapshot r.log appstate seq r.synchronizer.tbo.view c in
      let l : Log S O R = (finalize_checkpoint r.log appstate).1 in
      rw
        (
          f.0,
          execution_finished_with_appstate,
          ◌>>=◌,
          answer_waiting_lem (record r { log = l }) h m _ p f.1,
        )
        refl
