-- ===== src/Sync/Watch.antt =====
-- The client requests that a replica watches, and their timeouts (bft/sync/mod.rs). The clock, which
-- the code reads by `Instant::now`, is an argument.
pub mod Kept
pub mod Timers
use bafomet.Base.{
  ℕ, ◌-◌, true, false, not, ◌||◌, ltb, ◌==◌, if◌then◌else◌, is_empty, none, List, [], ◌∷◌, ◌++◌,
  map, HashMap, insert, remove,
}
use bafomet.Collections.{OrderedMap}
use bafomet.Crypto.{Hash, unique_digest}
use bafomet.Ordering.SeqNo.{SeqNo, next}
use bafomet.Message.{Digest}
use bafomet.Core.View.{ViewInfo}
use bafomet.Log.Store.{Log, insert_request}
use bafomet.Sync.Types.{
  StoredRequest, TimeoutPhase, fresh, timed_out_once, timed_out, init, SynchronizerStatus, idle,
  requests_timed_out, Synchronizer, Timer,
}
use bafomet.Sync.Tbo

module _ {O : Type 0} where
  unfoldable pub create : ℕ → ViewInfo → Synchronizer O
  create timeout_dur view = record {
    timeout_dur = timeout_dur;
    phase = init;
    watching_timeouts = false;
    timeout_seq = 0;
    watching = [];
    stopped = [];
    collects = [];
    tbo = Tbo.create view;
    finalize_state = none;
  }

  -- The number to use, and the state with the one after it.
  unfoldable pub next_timeout : Synchronizer O → SeqNo × Synchronizer O
  next_timeout s = (s.timeout_seq, record s { timeout_seq = next s.timeout_seq })

  start_timer : Synchronizer O → Synchronizer O × List Timer
  unfolding next_timeout
  start_timer s = let n = next_timeout s in (n.1, (s.timeout_dur, n.0) ∷ [])

  ensure_timer : Synchronizer O → Synchronizer O × List Timer
  unfolding start_timer
  ensure_timer s =
      if not s.watching_timeouts
      then (record (start_timer s).0 { watching_timeouts = true }, (start_timer s).1)
      else (s, [])

  unfoldable pub watch_request_impl :
      TimeoutPhase → Digest → Synchronizer O → Synchronizer O × List Timer
  unfolding ensure_timer
  watch_request_impl phase digest s =
      let t = ensure_timer s in (record t.0 { watching = insert digest phase t.0.watching }, t.1)

  unfoldable pub watch_request : ℕ → Digest → Synchronizer O → Synchronizer O × List Timer
  unfolding watch_request_impl
  watch_request now digest s = watch_request_impl (fresh now) digest s

  unfoldable pub unwatch_request : Digest → Synchronizer O → Synchronizer O
  unwatch_request digest s =
      let watching = remove digest s.watching in
      record s { watching = watching; watching_timeouts = not (is_empty watching) }

  unfoldable pub unwatch_all_requests : Synchronizer O → Synchronizer O
  unfolding next_timeout
  unwatch_all_requests s = (next_timeout s).1

  unfoldable pub watch_all_requests : ℕ → Synchronizer O → Synchronizer O × List Timer
  unfolding start_timer
  watch_all_requests now s =
      let watching = map (λ e. (e.0, fresh now)) s.watching in
      let s' = record s { watching = watching; watching_timeouts = not (is_empty watching) } in
      if s'.watching_timeouts then start_timer s' else (s', [])

  unfoldable pub install_view : ViewInfo → Synchronizer O → Synchronizer O
  install_view view s = record s { tbo = record s.tbo { view = view } }

-- The loop of `client_requests_timed_out`: what is forwarded, what is stopped, and the entries.
unfoldable pub time_out_requests :
    ℕ → ℕ → HashMap TimeoutPhase → List Digest × List Digest × HashMap TimeoutPhase
time_out_requests dur now [] = ([], [], [])
time_out_requests dur now ((d, p) ∷ watching) =
    let rest = time_out_requests dur now watching in
    elim p [
      | fresh i ↦ (if ltb dur (now - i) then d ∷ rest.0 else rest.0, rest.1, (d, fresh i) ∷ rest.2)
      | timed_out_once i ↦ (
        rest.0,
        if ltb dur (now - i) then d ∷ rest.1 else rest.1,
        (d, if ltb dur (now - i) then timed_out else timed_out_once i) ∷ rest.2,
      )
      | timed_out ↦ (rest.0, rest.1, (d, timed_out) ∷ rest.2)
    ]

module _ {O : Type 0} where
  unfoldable pub client_requests_timed_out :
      ℕ → SeqNo → Synchronizer O → SynchronizerStatus × Synchronizer O × List Timer
  unfolding time_out_requests start_timer
  client_requests_timed_out now seq s =
      if not s.watching_timeouts || not (next seq == s.timeout_seq)
      then (idle, s, [])
      else (let r = time_out_requests s.timeout_dur now s.watching in
          let t = start_timer (record s { watching = r.2 }) in
          (requests_timed_out r.0 r.1, t.0, t.1))

module _ {S O : Type 0} {R : OrderedMap (StoredRequest O)} (H : Hash) where
  watch_forwarded :
      ℕ
      → List (StoredRequest O)
      → Synchronizer O
      → Log S O R
      → Synchronizer O × Log S O R × List Timer
  unfolding watch_request_impl
  watch_forwarded now [] s l = (s, l, [])
  watch_forwarded now (r ∷ rs) s l =
      let w = watch_request_impl (timed_out_once now) (unique_digest H r.header) s in
      let rest = watch_forwarded now rs w.0 (insert_request H l r.header r.message) in
      (rest.0, rest.1, w.1 ++ rest.2)

  unfoldable pub watch_forwarded_requests :
      ℕ
      → List (StoredRequest O)
      → Synchronizer O
      → Log S O R
      → Synchronizer O × Log S O R × List Timer
  unfolding watch_forwarded
  watch_forwarded_requests now requests s l = watch_forwarded now requests s l
