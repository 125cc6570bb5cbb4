-- ===== src/Log/Finalize/Batch.antt =====
-- When a decided batch can be executed, and with what (bft/consensus/log/mod.rs).
use bafomet.Base.{
  Bool, true, false, not, ◌&&◌, ◌||◌, if◌then◌else◌, some, Result, ok, err, panic, List, [], ◌++◌,
  map, All, ◌≡◌, refl, ◌∙◌, arith,
}
use bafomet.Collections.{OrderedMap}
use bafomet.Ordering.SeqNo.{SeqNo}
use bafomet.Message.{Digest}
use bafomet.Log.Types.{
  Info, nil, begin_checkpoint, CheckpointState, no_checkpoint, complete, partial,
  partial_with_earlier,
}
use bafomet.Executable.{UpdateBatch}
use bafomet.Log.Store.{StoredRequest, Log}
use bafomet.Log.Store.Requests.{IsDisjoint}
use bafomet.Log.Finalize.{
  collect_batch, start_checkpoint, last_seq_no, checkpoint_due, finish_batch, finalize_batch,
}
use bafomet.Log.Finalize.Collect.{
  is_ok, available, IsFrom, SameRest, collect_batch-available, collect_batch-updates,
  collect_batch-frame,
}

-- A checkpoint may begin unless one is under way.
abbrev pub can_begin : {S : Type 0} → CheckpointState S → Bool
can_begin no_checkpoint = true
can_begin (complete _) = true
can_begin (partial _) = false
can_begin (partial_with_earlier _ _) = false

module _ {S O : Type 0} {R : OrderedMap (StoredRequest O)} where
  start_checkpoint-is_ok :
      (l : Log S O R) (seq : SeqNo) (c : CheckpointState S)
      → l.checkpoint ≡ c
      → is_ok (start_checkpoint l seq).0 ≡ can_begin c
  unfolding start_checkpoint
  start_checkpoint-is_ok l seq no_checkpoint e = rw (e, start_checkpoint)
  start_checkpoint-is_ok l seq (complete _) e = rw (e, start_checkpoint)
  start_checkpoint-is_ok l seq (partial _) e = rw (e, start_checkpoint)
  start_checkpoint-is_ok l seq (partial_with_earlier _ _) e = rw (e, start_checkpoint)

  start_checkpoint-info :
      (l : Log S O R) (seq : SeqNo) (c : CheckpointState S) (info : Info)
      → l.checkpoint ≡ c
      → (start_checkpoint l seq).0 ≡ ok info
      → (info ≡ begin_checkpoint)
        × ((start_checkpoint l seq).1.decided ≡ l.decided)
        × ((start_checkpoint l seq).1.declog ≡ l.declog)
  unfolding start_checkpoint
  start_checkpoint-info l seq no_checkpoint info e f = ground arith
  start_checkpoint-info l seq (complete _) info e f = ground arith
  start_checkpoint-info l seq (partial _) info e f = ground arith
  start_checkpoint-info l seq (partial_with_earlier _ _) info e f = ground arith

  -- A checkpoint is due, and none is under way, or none is due.
  abbrev pub may_finish : Log S O R → Bool
  may_finish l = not (checkpoint_due (last_seq_no l)) || can_begin l.checkpoint

  with_decided : Log S O R → UpdateBatch O → Log S O R
  with_decided l batch = record l { decided = l.decided ++ map (λ u. u.operation) batch }

  finish_batch-is_ok :
      (l : Log S O R) (seq : SeqNo) (b : UpdateBatch O)
      → is_ok (finish_batch l seq b).0 ≡ may_finish l
  unfolding finish_batch with_decided last_seq_no
  finish_batch-is_ok l seq b =
      ground (arith, start_checkpoint-is_ok (with_decided l b) (last_seq_no l) l.checkpoint refl)

  finish_batch-ok :
      (l : Log S O R) (seq : SeqNo) (b b' : UpdateBatch O) (info : Info)
      → (finish_batch l seq b).0 ≡ ok (info, b')
      → (b' ≡ b)
        × ((finish_batch l seq b).1.decided ≡ l.decided ++ map (λ u. u.operation) b)
        × ((finish_batch l seq b).1.declog ≡ record l.declog { last_exec = some seq })
        × (info ≡ (if checkpoint_due (last_seq_no l) then begin_checkpoint else nil))
  unfolding finish_batch start_checkpoint last_seq_no
  finish_batch-ok l seq b b' info e = go l.checkpoint refl
    where
      go :
          (c : CheckpointState S)
          → l.checkpoint ≡ c
          → (b' ≡ b)
            × ((finish_batch l seq b).1.decided ≡ l.decided ++ map (λ u. u.operation) b)
            × ((finish_batch l seq b).1.declog ≡ record l.declog { last_exec = some seq })
            × (info ≡ (if checkpoint_due (last_seq_no l) then begin_checkpoint else nil))
      go no_checkpoint f = ground arith
      go (complete _) f = ground arith
      go (partial _) f = ground arith
      go (partial_with_earlier _ _) f = ground arith

  -- Reading the number of the newest `PRE-PREPARE` does not depend on the requests.
  may_finish-SameRest :
      (l l' : Log S O R)
      → SameRest l l'
      → (may_finish l' ≡ may_finish l) × (last_seq_no l' ≡ last_seq_no l)
  unfolding last_seq_no
  may_finish-SameRest l l' h = ground arith

  -- `finalize_batch` succeeds exactly when every digest names a known request, no digest stands
  -- twice, and a checkpoint that is due may begin. It never panics.
  pub finalize_batch-is_ok :
      (l : Log S O R) (seq : SeqNo) (ds : List Digest)
      → IsDisjoint l
      → is_ok (finalize_batch l seq ds).0 ≡ (available l ds && may_finish l)
  unfolding finalize_batch
  finalize_batch-is_ok l seq ds v = go (collect_batch l [] ds).0 refl
    where
      go :
          (r : Result (UpdateBatch O))
          → (collect_batch l [] ds).0 ≡ r
          → is_ok (finalize_batch l seq ds).0 ≡ (available l ds && may_finish l)
      go (ok a) e =
          rw (e, finalize_batch)
            (finish_batch-is_ok (collect_batch l [] ds).1 seq a
              ∙ (may_finish-SameRest l _ (collect_batch-frame l [] ds v).0).0
              ∙ ground (arith, collect_batch-available l [] ds v))
      go (err x) e = rw (e, finalize_batch) (ground (arith, collect_batch-available l [] ds v))
      go panic e = rw (e, finalize_batch) (ground (arith, collect_batch-available l [] ds v))

  -- What a batch that succeeds has done: it holds one update for each digest, in order, made from
  -- the request that the log had for it; their operations are appended to the decided ones; the
  -- instance is recorded as executed; and a checkpoint begins exactly when the newest `PRE-PREPARE`
  -- is of a positive multiple of the period.
  pub finalize_batch-ok :
      (l : Log S O R) (seq : SeqNo) (ds : List Digest) (info : Info) (b : UpdateBatch O)
      → IsDisjoint l
      → (finalize_batch l seq ds).0 ≡ ok (info, b)
      → (map (λ u. u.digest) b ≡ ds)
        × All (IsFrom l) b
        × ((finalize_batch l seq ds).1.decided ≡ l.decided ++ map (λ u. u.operation) b)
        × ((finalize_batch l seq ds).1.declog ≡ record l.declog { last_exec = some seq })
        × (info ≡ (if checkpoint_due (last_seq_no l) then begin_checkpoint else nil))
  unfolding finalize_batch
  finalize_batch-ok l seq ds info b v e = go (collect_batch l [] ds).0 refl
    where
      go :
          (r : Result (UpdateBatch O))
          → (collect_batch l [] ds).0 ≡ r
          → (map (λ u. u.digest) b ≡ ds)
            × All (IsFrom l) b
            × ((finalize_batch l seq ds).1.decided ≡ l.decided ++ map (λ u. u.operation) b)
            × ((finalize_batch l seq ds).1.declog ≡ record l.declog { last_exec = some seq })
            × (info ≡ (if checkpoint_due (last_seq_no l) then begin_checkpoint else nil))
      go (err x) f = absurd (cc (rw (f, finalize_batch) at e))
      go panic f = absurd (cc (rw (f, finalize_batch) at e))
      go (ok a) f =
          let l1 = (collect_batch l [] ds).1 in
          let kept = (collect_batch-frame l [] ds v).0 in
          let same = may_finish-SameRest l l1 kept in
          let done = finish_batch-ok l1 seq a b info (rw (f, finalize_batch) at e) in
          let (us, h, k, m) = collect_batch-updates l [] ds a v f in
          let p : b ≡ us = done.0 ∙ h in
          rw (f, finalize_batch) (rw p k, rw p m, ground arith, ground arith, ground arith)
