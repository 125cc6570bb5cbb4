-- ===== src/Log/Finalize.antt =====
-- Executing a decided batch, and local checkpoints (bft/consensus/log/mod.rs).
pub mod Collect
pub mod Batch
pub mod Checkpoints
use bafomet.Base.{
  ℕ, ◌+◌, ◌%◌, Bool, true, false, ◌&&◌, ◌||◌, ltb, leb, ◌==◌, if◌then◌else◌, Option, none, some,
  is_some, or_else, unwrap_or, Result, ok, err, panic, simple, wrapped, consensus_log, List, [],
  ◌∷◌, ◌++◌, map, last, init, take, length, is_empty, HashMap, get, insert, remove, contains_key,
  keys,
}
use bafomet.Collections.{OrderedMap}
use bafomet.Crypto.{Hash, unique_digest}
use bafomet.Ordering.SeqNo.{SeqNo, period}
use bafomet.Message.{
  Digest, Header, StoredMessage, RequestMessage, ConsensusMessage, ConsensusMessageKind,
  pre_prepare, prepare, commit,
}
use bafomet.Message.System.{SystemMessage, request, consensus, RecoveryState}
use bafomet.Core.View.{ViewInfo}
use bafomet.Log.Types.{
  Info, nil, begin_checkpoint, Checkpoint, CheckpointState, no_checkpoint, partial,
  partial_with_earlier, complete, DecisionLog, empty_declog,
}
use bafomet.Log.Decision.{Stored}
use bafomet.Log.Store.{StoredRequest, Log, find_request, take_request}
use bafomet.Executable.{Update, UpdateBatch, add_update}

unfoldable pub checkpoint_due : SeqNo → Bool
checkpoint_due seq = ltb 0 seq && (seq % period == 0)

module _ {S O : Type 0} {R : OrderedMap (StoredRequest O)} where
  -- The first loop of `finalize_batch`; it stops at the first digest with no request.
  unfoldable pub collect_batch :
      Log S O R → UpdateBatch O → List Digest → Result (UpdateBatch O) × Log S O R
  unfolding find_request take_request
  collect_batch l batch [] = (ok batch, l)
  collect_batch l batch (d ∷ ds) = elim (find_request l d) [
    | none ↦ (err (simple consensus_log), take_request l d)
    | some stored ↦
        collect_batch (take_request l d)
          (add_update batch stored.header.from d stored.message.operation) ds
  ]

  begin_from : Log S O R → SeqNo → CheckpointState S → Result Info × Log S O R
  begin_from l seq no_checkpoint = (ok begin_checkpoint, record l { checkpoint = partial seq })
  begin_from l seq (complete earlier) =
      (ok begin_checkpoint, record l { checkpoint = partial_with_earlier seq earlier })
  begin_from l seq _ = (
    err (wrapped consensus_log "Invalid checkpoint state detected"),
    record l { checkpoint = no_checkpoint },
  )

  -- `Log::begin_checkpoint`. The state was moved out before the test, so an error leaves none.
  unfoldable pub start_checkpoint : Log S O R → SeqNo → Result Info × Log S O R
  unfolding begin_from
  start_checkpoint l seq = begin_from l seq l.checkpoint

  -- The number of the newest `PRE-PREPARE`, or the one stored before the log was cleared.
  unfoldable pub last_seq_no : Log S O R → SeqNo
  last_seq_no l = elim (last l.declog.pre_prepares) [ some m ↦ m.message.seq | none ↦ l.curr_seq ]

  -- The rest of `finalize_batch`, once the batch is there.
  unfoldable pub finish_batch :
      Log S O R → SeqNo → UpdateBatch O → Result (Info × UpdateBatch O) × Log S O R
  finish_batch l seq batch =
      let l' = record l { decided = l.decided ++ map (λ u. u.operation) batch } in
      let r =
        (if checkpoint_due (last_seq_no l')
          then start_checkpoint l' (last_seq_no l')
          else (ok nil, l')) in
      elim r.0 [
        | ok info ↦
            (ok (info, batch), record r.1 { declog = record r.1.declog { last_exec = some seq } })
        | err e ↦ (err e, r.1)
        | panic ↦ (panic, r.1)
      ]

  unfoldable pub finalize_batch :
      Log S O R → SeqNo → List Digest → Result (Info × UpdateBatch O) × Log S O R
  finalize_batch l seq digests =
      let r = collect_batch l [] digests in
      elim r.0 [
        | ok batch ↦ finish_batch r.1 seq batch
        | err e ↦ (err e, r.1)
        | panic ↦ (panic, r.1)
      ]

  -- The log is cleared but for the number of the newest `PRE-PREPARE`.
  unfoldable pub clear_messages : Log S O R → Log S O R
  clear_messages l = elim (last l.declog.pre_prepares) [
    | some m ↦ record l {
      declog = record l.declog { pre_prepares = []; prepares = []; commits = [] };
      curr_seq = m.message.seq;
    }
    | none ↦ record l { declog = record l.declog { prepares = []; commits = [] } }
  ]

  complete_with : Log S O R → SeqNo → S → Result (Unit {0}) × Log S O R
  unfolding clear_messages
  complete_with l seq appstate = (
    ok tt,
    clear_messages (record l {
      checkpoint = complete (record { seq = seq; appstate = appstate });
      decided = [];
    }),
  )

  finalize_from : Log S O R → S → CheckpointState S → Result (Unit {0}) × Log S O R
  unfolding complete_with
  finalize_from l appstate no_checkpoint =
      (err (wrapped consensus_log "No checkpoint has been initiated yet"), l)
  finalize_from l appstate (complete _) =
      (err (wrapped consensus_log "Checkpoint already finalized"), l)
  finalize_from l appstate (partial seq) = complete_with l seq appstate
  finalize_from l appstate (partial_with_earlier seq _) = complete_with l seq appstate

  unfoldable pub finalize_checkpoint : Log S O R → S → Result (Unit {0}) × Log S O R
  unfolding finalize_from
  finalize_checkpoint l appstate = finalize_from l appstate l.checkpoint
