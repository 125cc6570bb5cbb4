-- ===== src/Sync/Stops/Kept.antt =====
-- What the start of a view change does to the votes (bft/sync/mod.rs).
use bafomet.Base.{ℕ, ◌+◌, Option, none, some, List, [], ◌∷◌, ◌≡◌, refl}
use bafomet.Collections.{OrderedMap}
use bafomet.Crypto.{Hash, unique_digest}
use bafomet.Log.Store.{Log, insert_request}
use bafomet.Sync.Types.{
  StoredRequest, ProtoPhase, init, stopping, stopping2, stopping_data, syncing, syncing_state,
  timed_out, Synchronizer,
}
use bafomet.Sync.Watch.Kept.{IsKept}
use bafomet.Sync.Watch.Timers.{IsFlagged, unwatch_all-IsFlagged}
use bafomet.Sync.Watch.{unwatch_all_requests}
use bafomet.Base.{insert}
use bafomet.Sync.Stops.{
  begin_phase, stopped_requests, begin_view_change, watch_stopped, add_stopped_requests,
}

-- The phase, and the votes that are left, after a view change has begun.
pub record Begun {O : Type 0} (p : ProtoPhase) (s s' : Synchronizer O) : Type 0 where
  pub phase : s'.phase ≡ p
  pub tbo : s'.tbo ≡ s.tbo
  pub stopped : s'.stopped ≡ []
  pub collects : s'.collects ≡ s.collects

module _ {O : Type 0} (H : Hash) where
  -- A replica that joins a view change forgets the votes that made it join.
  pub begin_view_change-Begun :
      (s : Synchronizer O) (i : ℕ)
      → s.phase ≡ stopping i
      → Begun (stopping2 (i + 1)) s (begin_view_change H none s).0
  unfolding begin_view_change begin_phase stopped_requests unwatch_all_requests
  begin_view_change-Begun s i e =
      rw (e, begin_view_change, begin_phase)
        (record { phase = refl; tbo = refl; stopped = refl; collects = refl })

  -- A replica whose own requests timed out starts to count from zero.
  pub begin_view_change_alone :
      (rs : List (StoredRequest O)) (s : Synchronizer O)
      → s.phase ≡ init
      → (begin_view_change H (some rs) s).0.phase ≡ stopping2 0
  unfolding begin_view_change begin_phase stopped_requests unwatch_all_requests
  begin_view_change_alone rs s e = rw (e, begin_view_change, begin_phase) refl

  begin_phase-IsFlagged :
      (requests : Option (List (StoredRequest O))) (s : Synchronizer O) (p : ProtoPhase)
      → IsFlagged s
      → IsFlagged (begin_phase H requests s p)
  unfolding begin_phase
  begin_phase-IsFlagged none s (stopping i) v = v
  begin_phase-IsFlagged (some _) s (stopping i) v = v
  begin_phase-IsFlagged none s init v = v
  begin_phase-IsFlagged (some _) s init v = v
  begin_phase-IsFlagged none s (stopping2 _) v = v
  begin_phase-IsFlagged (some _) s (stopping2 _) v = v
  begin_phase-IsFlagged none s (stopping_data _) v = v
  begin_phase-IsFlagged (some _) s (stopping_data _) v = v
  begin_phase-IsFlagged none s syncing v = v
  begin_phase-IsFlagged (some _) s syncing v = v
  begin_phase-IsFlagged none s syncing_state v = v
  begin_phase-IsFlagged (some _) s syncing_state v = v

  -- The start of a view change keeps what is watched.
  pub begin_view_change-IsFlagged :
      (requests : Option (List (StoredRequest O))) (s : Synchronizer O)
      → IsFlagged s
      → IsFlagged (begin_view_change H requests s).0
  unfolding begin_view_change stopped_requests
  begin_view_change-IsFlagged none s v =
      unwatch_all-IsFlagged (begin_phase H none s s.phase) (begin_phase-IsFlagged none s s.phase v)
  begin_view_change-IsFlagged (some rs) s v =
      unwatch_all-IsFlagged (begin_phase H (some rs) s s.phase)
        (begin_phase-IsFlagged (some rs) s s.phase v)

module _ {S O : Type 0} {R : OrderedMap (StoredRequest O)} (H : Hash) where
  watch_stopped-IsKept :
      (rs : List (StoredRequest O)) (s : Synchronizer O) (l : Log S O R)
      → IsKept s (watch_stopped H rs s l).0
  unfolding watch_stopped
  watch_stopped-IsKept [] s l = record { phase = refl; tbo = refl; stopped = refl; collects = refl }
  watch_stopped-IsKept (r ∷ rs) s l =
      let k =
        watch_stopped-IsKept rs
          (record s { watching = insert (unique_digest H r.header) timed_out s.watching })
          (insert_request H l r.header r.message) in
      record { phase = k.phase; tbo = k.tbo; stopped = k.stopped; collects = k.collects }

  pub add_stopped_requests-Begun :
      (s : Synchronizer O) (l : Log S O R) → Begun s.phase s (add_stopped_requests H s l).0
  unfolding add_stopped_requests stopped_requests
  add_stopped_requests-Begun s l =
      let r = stopped_requests H none s in
      let k = watch_stopped-IsKept r.0 r.1 l in
      record { phase = k.phase; tbo = k.tbo; stopped = k.stopped; collects = k.collects }
