-- ===== src/Sync/Poll/Kept.antt =====
-- What polling for a message leaves as it is (bft/sync/mod.rs).
use bafomet.Base.{Bool, true, false, not, if◌then◌else◌, Option, none, some}
use bafomet.Sync.Types.{
  StoredChange, ProtoPhase, init, stopping, stopping2, stopping_data, syncing, syncing_state, recv,
  Synchronizer,
}
use bafomet.Sync.Watch.Timers.{IsFlagged}
use bafomet.Sync.Poll.{extract, with_stops, with_stop_datas, with_syncs, poll_phase, poll}

module _ {O : Type 0} where
  extract-IsFlagged :
      (o : Option (StoredChange O)) (s : Synchronizer O) (p : ProtoPhase)
      → IsFlagged s
      → IsFlagged (extract o s p).1
  unfolding extract
  extract-IsFlagged none s p v = v
  extract-IsFlagged (some m) s p v = v

  poll_phase-IsFlagged :
      (s : Synchronizer O) (p : ProtoPhase) → IsFlagged s → IsFlagged (poll_phase s p).1
  unfolding poll_phase with_stops with_stop_datas with_syncs
  poll_phase-IsFlagged s init v = extract-IsFlagged _ _ _ v
  poll_phase-IsFlagged s (stopping i) v = extract-IsFlagged _ _ _ v
  poll_phase-IsFlagged s (stopping2 i) v = extract-IsFlagged _ _ _ v
  poll_phase-IsFlagged s (stopping_data i) v = extract-IsFlagged _ _ _ v
  poll_phase-IsFlagged s syncing v = extract-IsFlagged _ _ _ v
  poll_phase-IsFlagged s syncing_state v = v

  polled :
      (b : Bool) (s : Synchronizer O)
      → IsFlagged s
      → IsFlagged (if b then (recv, s) else poll_phase s s.phase).1
  polled true s v = v
  polled false s v = poll_phase-IsFlagged s s.phase v

  pub poll-IsFlagged : (s : Synchronizer O) → IsFlagged s → IsFlagged (poll s).1
  unfolding poll
  poll-IsFlagged s v = polled (not s.tbo.get_queue) s v
