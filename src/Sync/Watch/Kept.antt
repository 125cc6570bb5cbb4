-- ===== src/Sync/Watch/Kept.antt =====
-- What a change of the watched requests leaves as it is (bft/sync/mod.rs).
use bafomet.Base.{
  insert, arith, List, ℕ, Bool, true, false, not, is_empty, ◌≡◌, refl, [], map, if◌then◌else◌,
}
use bafomet.Sync.Types.{Timer, fresh, Synchronizer}
use bafomet.Message.{Digest}
use bafomet.Sync.Watch.{
  watch_request, watch_request_impl, ensure_timer, start_timer, next_timeout, watch_all_requests,
}

-- Only the timers and the watched requests may differ.
pub record IsKept {O : Type 0} (s s' : Synchronizer O) : Type 0 where
  pub phase : s'.phase ≡ s.phase
  pub tbo : s'.tbo ≡ s.tbo
  pub stopped : s'.stopped ≡ s.stopped
  pub collects : s'.collects ≡ s.collects

module _ {O : Type 0} where
  if-IsKept :
      {A : Type 0} (s : Synchronizer O) (b : Bool) (x y : Synchronizer O × A)
      → IsKept s x.0
      → IsKept s y.0
      → IsKept s (if b then x else y).0
  if-IsKept s true x y h g = h
  if-IsKept s false x y h g = g

  pub watch_all_requests-IsKept :
      (now : ℕ) (s : Synchronizer O) → IsKept s (watch_all_requests now s).0
  unfolding watch_all_requests start_timer next_timeout
  watch_all_requests-IsKept now s =
      let watching = map (λ e. (e.0, fresh now)) s.watching in
      let s' : Synchronizer O = record s {
        watching = watching;
        watching_timeouts = not (is_empty watching);
      } in
      if-IsKept s s'.watching_timeouts (start_timer s') (s', [])
        (record { phase = refl; tbo = refl; stopped = refl; collects = refl })
        (record { phase = refl; tbo = refl; stopped = refl; collects = refl })

  pub watch_request-IsKept :
      (now : ℕ) (d : Digest) (s : Synchronizer O) → IsKept s (watch_request now d s).0
  unfolding watch_request watch_request_impl ensure_timer start_timer next_timeout
  watch_request-IsKept now d s =
      let t : Synchronizer O × List Timer =
        (record (start_timer s).0 { watching_timeouts = true }, (start_timer s).1) in
      let k =
        if-IsKept s (not s.watching_timeouts) t (s, [])
          (record { phase = refl; tbo = refl; stopped = refl; collects = refl })
          (record { phase = refl; tbo = refl; stopped = refl; collects = refl }) in
      record { phase = k.phase; tbo = k.tbo; stopped = k.stopped; collects = k.collects }

  pub watching-watch_request :
      (now : ℕ) (d : Digest) (s : Synchronizer O)
      → (watch_request now d s).0.watching ≡ insert d (fresh now) s.watching
  unfolding watch_request watch_request_impl ensure_timer start_timer next_timeout
  watching-watch_request now d s = ground arith
