-- ===== src/Sync/Watch/Timers.antt =====
-- The timers of the watched requests (bft/sync/mod.rs).
use bafomet.Base.{
  ℕ, ◌-◌, Bool, true, false, not, ltb, if◌then◌else◌, is_empty, List, [], ◌∷◌, map, select, HashMap,
  insert, keys, ◌≡◌, ◌≢◌, refl, arith,
}
use bafomet.Collections.{OrderedMap}
use bafomet.Crypto.{Hash, unique_digest}
use bafomet.Log.Store.{Log, insert_request}
use bafomet.Message.{Digest}
use bafomet.Ordering.SeqNo.{SeqNo, next}
use bafomet.Sync.Types.{
  StoredRequest, TimeoutPhase, fresh, timed_out_once, timed_out, idle, requests_timed_out,
  Synchronizer,
}
use bafomet.Sync.Watch.{
  next_timeout, start_timer, ensure_timer, watch_request_impl, watch_request, unwatch_request,
  unwatch_all_requests, watch_all_requests, time_out_requests, client_requests_timed_out,
  watch_forwarded, watch_forwarded_requests,
}

-- An entry that was not forwarded, and one that was, and whose time is over.
abbrev pub is_due_fresh : ℕ → ℕ → Digest × TimeoutPhase → Bool
is_due_fresh dur now (d, fresh i) = ltb dur (now - i)
is_due_fresh dur now (d, timed_out_once i) = false
is_due_fresh dur now (d, timed_out) = false

abbrev pub is_due_once : ℕ → ℕ → Digest × TimeoutPhase → Bool
is_due_once dur now (d, fresh i) = false
is_due_once dur now (d, timed_out_once i) = ltb dur (now - i)
is_due_once dur now (d, timed_out) = false

abbrev pub after : ℕ → ℕ → Digest × TimeoutPhase → Digest × TimeoutPhase
after dur now e = if is_due_once dur now e then (e.0, timed_out) else e

-- The loop forwards the requests whose first timeout is over, stops those whose second is over, and
-- marks the latter and no other.
pub time_out_requests_lem :
    (dur now : ℕ) (watching : HashMap TimeoutPhase)
    → time_out_requests dur now watching ≡ (
      keys (select (is_due_fresh dur now) watching),
      keys (select (is_due_once dur now) watching),
      map (after dur now) watching,
    )
unfolding time_out_requests keys
time_out_requests_lem dur now [] = refl
time_out_requests_lem dur now ((d, fresh i) ∷ w) = ground (arith, time_out_requests_lem dur now w)
time_out_requests_lem dur now ((d, timed_out_once i) ∷ w) =
    ground (arith, time_out_requests_lem dur now w)
time_out_requests_lem dur now ((d, timed_out) ∷ w) = ground (arith, time_out_requests_lem dur now w)

-- The flag tells whether requests are watched.
abbrev pub IsFlagged : {O : Type 0} → Synchronizer O → Type 0
IsFlagged s = s.watching_timeouts ≡ not (is_empty s.watching)

is_empty-map {ℓ} : {A B : Type ℓ} (f : A → B) (xs : List A) → is_empty (map f xs) ≡ is_empty xs
is_empty-map f [] = refl
is_empty-map f (x ∷ xs) = refl

is_empty-insert :
    (d : Digest) (p : TimeoutPhase) (w : HashMap TimeoutPhase) → is_empty (insert d p w) ≡ false
unfolding insert
is_empty-insert d p [] = refl
is_empty-insert d p ((j, q) ∷ w) = ground arith

next_moves : (x : SeqNo) → next x ≢ x
unfolding next
next_moves x e = ground (arith, e)

module _ {O : Type 0} where
  pub watch_request-IsFlagged :
      (now : ℕ) (d : Digest) (s : Synchronizer O) → IsFlagged (watch_request now d s).0
  unfolding watch_request watch_request_impl ensure_timer start_timer next_timeout
  watch_request-IsFlagged now d s = ground (arith, is_empty-insert d (fresh now) s.watching)

  pub time_out-IsFlagged :
      (now : ℕ) (seq : SeqNo) (s : Synchronizer O)
      → IsFlagged s
      → IsFlagged (client_requests_timed_out now seq s).1
  unfolding client_requests_timed_out start_timer next_timeout
  time_out-IsFlagged now seq s h = ground (
    arith,
    h,
    time_out_requests_lem s.timeout_dur now s.watching,
    is_empty-map (after s.timeout_dur now) s.watching,
  )

  pub watch_all-IsFlagged : (now : ℕ) (s : Synchronizer O) → IsFlagged (watch_all_requests now s).0
  unfolding watch_all_requests start_timer next_timeout
  watch_all-IsFlagged now s = ground arith

  pub unwatch_request-IsFlagged :
      (d : Digest) (s : Synchronizer O) → IsFlagged (unwatch_request d s)
  unfolding unwatch_request
  unwatch_request-IsFlagged d s = refl

  pub unwatch_all-IsFlagged :
      (s : Synchronizer O) → IsFlagged s → IsFlagged (unwatch_all_requests s)
  unfolding unwatch_all_requests next_timeout
  unwatch_all-IsFlagged s h = h

  watch_request_impl-IsFlagged :
      (p : TimeoutPhase) (d : Digest) (s : Synchronizer O) → IsFlagged (watch_request_impl p d s).0
  unfolding watch_request_impl ensure_timer start_timer next_timeout
  watch_request_impl-IsFlagged p d s = ground (arith, is_empty-insert d p s.watching)

  -- After every timer was stopped, a timer that was started before does nothing when it ends, and
  -- where requests were watched, no new one is started for a request.
  pub unwatch_all_requests-client_requests_timed_out :
      (now : ℕ) (d : Digest) (seq : SeqNo) (s : Synchronizer O)
      → next seq ≡ s.timeout_seq
      → s.watching_timeouts ≡ true
      → let w = watch_request now d (unwatch_all_requests s) in
        (w.1 ≡ []) × (client_requests_timed_out now seq w.0 ≡ (idle, w.0, []))
  unfolding unwatch_all_requests next_timeout watch_request watch_request_impl ensure_timer
      client_requests_timed_out
  unwatch_all_requests-client_requests_timed_out now d seq s e f =
      (ground (arith, f), ground (arith, e, f, next_moves s.timeout_seq))

  -- When the running timer ends, the requests are timed out.
  pub client_requests_timed_out_current :
      (now : ℕ) (seq : SeqNo) (s : Synchronizer O)
      → s.watching_timeouts ≡ true
      → next seq ≡ s.timeout_seq
      → ((client_requests_timed_out now seq s).0
          ≡ requests_timed_out
              (keys (select (is_due_fresh s.timeout_dur now) s.watching))
              (keys (select (is_due_once s.timeout_dur now) s.watching)))
        × ((client_requests_timed_out now seq s).1.phase ≡ s.phase)
  unfolding client_requests_timed_out start_timer next_timeout
  client_requests_timed_out_current now seq s w e = (
    ground (arith, w, e, time_out_requests_lem s.timeout_dur now s.watching),
    ground (arith, w, e),
  )

module _ {S O : Type 0} {R : OrderedMap (StoredRequest O)} (H : Hash) where
  pub watch_forwarded-IsFlagged :
      (now : ℕ) (rs : List (StoredRequest O)) (s : Synchronizer O) (l : Log S O R)
      → IsFlagged s
      → IsFlagged (watch_forwarded_requests H now rs s l).0
  unfolding watch_forwarded_requests watch_forwarded
  watch_forwarded-IsFlagged now [] s l h = h
  watch_forwarded-IsFlagged now (r ∷ rs) s l h =
      let d = unique_digest H r.header in
      watch_forwarded-IsFlagged now rs (watch_request_impl (timed_out_once now) d s).0
        (insert_request H l r.header r.message)
        (watch_request_impl-IsFlagged (timed_out_once now) d s)
