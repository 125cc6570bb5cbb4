-- ===== src/Log/Finalize/Checkpoints.antt =====
-- The life of a local checkpoint, and what a snapshot holds (bft/consensus/log/mod.rs).
use bafomet.Base.{
  Option, none, some, Result, ok, err, panic, ErrorKind, kind, consensus_log, [], last-none, ◌≡◌,
  refl, arith,
}
use bafomet.Collections.{OrderedMap}
use bafomet.Ordering.SeqNo.{SeqNo}
use bafomet.Message.System.{RecoveryState}
use bafomet.Log.Types.{
  Checkpoint, CheckpointState, no_checkpoint, complete, partial, partial_with_earlier,
}
use bafomet.Log.Store.{StoredRequest, Log, install_state, snapshot}
use bafomet.Core.View.{ViewInfo}
use bafomet.Log.Finalize.{last_seq_no, finalize_checkpoint}

-- The instance of a checkpoint that waits for the state of the application.
abbrev pub pending : {S : Type 0} → CheckpointState S → Option SeqNo
pending (partial seq) = some seq
pending (partial_with_earlier seq _) = some seq
pending no_checkpoint = none
pending (complete _) = none

-- The kind of the error, if there is one.
abbrev pub kind_of {ℓ} : {A : Type ℓ} → Result A → Option ErrorKind
kind_of (ok a) = none
kind_of (err e) = some (kind e)
kind_of panic = none

module _ {S O : Type 0} {R : OrderedMap (StoredRequest O)} where
  -- A log into which a recovery state was installed gives that state back.
  pub snapshot-install_state :
      (l : Log S O R) (seq : SeqNo) (rs : RecoveryState S O)
      → snapshot (install_state l seq rs) rs.view ≡ ok rs
  unfolding snapshot install_state
  snapshot-install_state l seq rs = refl

  -- What a completed checkpoint leaves.
  abbrev pub IsCompleted : Log S O R → SeqNo → S → Log S O R → Type 0
  IsCompleted l seq appstate l' =
      (l'.checkpoint ≡ complete (record { seq = seq; appstate = appstate }))
      × (l'.decided ≡ [])
      × (l'.declog ≡ record {
        last_exec = l.declog.last_exec;
        pre_prepares = [];
        prepares = [];
        commits = [];
      })
      × (l'.requests ≡ l.requests)
      × (l'.deciding ≡ l.deciding)
      × (last_seq_no l' ≡ last_seq_no l)

  -- The application state completes a pending checkpoint, for the instance that began it. The
  -- operations decided so far and the messages are dropped, the requests are kept, and the number
  -- that decides on the next checkpoint stays.
  pub finalize_checkpoint-pending :
      (l : Log S O R) (appstate : S) (seq : SeqNo)
      → pending l.checkpoint ≡ some seq
      → ((finalize_checkpoint l appstate).0 ≡ ok tt)
        × IsCompleted l seq appstate (finalize_checkpoint l appstate).1
  unfolding finalize_checkpoint last_seq_no
  finalize_checkpoint-pending l appstate seq e = go l.checkpoint refl
    where
      go :
          (c : CheckpointState S)
          → l.checkpoint ≡ c
          → ((finalize_checkpoint l appstate).0 ≡ ok tt)
            × IsCompleted l seq appstate (finalize_checkpoint l appstate).1
      go no_checkpoint f = ground arith
      go (complete _) f = ground arith
      go (partial _) f = ground (arith, last-none l.declog.pre_prepares)
      go (partial_with_earlier _ _) f = ground (arith, last-none l.declog.pre_prepares)

  -- With no checkpoint pending the call is an error, and changes nothing.
  pub finalize_checkpoint-none :
      (l : Log S O R) (appstate : S)
      → pending l.checkpoint ≡ none
      → (kind_of (finalize_checkpoint l appstate).0 ≡ some consensus_log)
        × ((finalize_checkpoint l appstate).1 ≡ l)
  unfolding finalize_checkpoint
  finalize_checkpoint-none l appstate e = go l.checkpoint refl
    where
      go :
          (c : CheckpointState S)
          → l.checkpoint ≡ c
          → (kind_of (finalize_checkpoint l appstate).0 ≡ some consensus_log)
            × ((finalize_checkpoint l appstate).1 ≡ l)
      go no_checkpoint f = rw (f, finalize_checkpoint) (refl, refl)
      go (complete _) f = rw (f, finalize_checkpoint) (refl, refl)
      go (partial _) f = ground arith
      go (partial_with_earlier _ _) f = ground arith

  snapshot_complete :
      (l : Log S O R) (view : ViewInfo) (c : Checkpoint S)
      → l.checkpoint ≡ complete c
      → snapshot l view
        ≡ ok (record { view = view; checkpoint = c; requests = l.decided; declog = l.declog })
  unfolding snapshot
  snapshot_complete l view c e = ground (arith, e)

  -- A pending checkpoint is completed, and a snapshot then has it, and no operations.
  pub finalize_checkpoint-snapshot :
      (l : Log S O R) (appstate : S) (seq : SeqNo) (view : ViewInfo)
      → pending l.checkpoint ≡ some seq
      → ((finalize_checkpoint l appstate).0 ≡ ok tt)
        × (snapshot (finalize_checkpoint l appstate).1 view
            ≡ ok (record {
              view = view;
              checkpoint = record { seq = seq; appstate = appstate };
              requests = [];
              declog = (finalize_checkpoint l appstate).1.declog;
            }))
  finalize_checkpoint-snapshot l appstate seq view e =
      let f = finalize_checkpoint-pending l appstate seq e in
      let l' : Log S O R = (finalize_checkpoint l appstate).1 in
      (f.0, rw (snapshot_complete l' view _ f.1.0, f.1.1) refl)
