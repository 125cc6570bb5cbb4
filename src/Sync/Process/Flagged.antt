-- ===== src/Sync/Process/Flagged.antt =====
-- When requests are watched, whatever a replica does (bft/sync/mod.rs).
use bafomet.Base.{
  ℕ, Bool, true, false, not, ltb, ◌==◌, ◌+◌, if◌then◌else◌, none, Option, Result, ok, Okay, ok-Okay,
  >>=-Okay, List, ◌≡◌, contains_key, insert,
}
use bafomet.Collections.{OrderedMap}
use bafomet.Crypto.{Hash}
use bafomet.Ordering.SeqNo.{SeqNo, next}
use bafomet.Message.{Digest, Header}
use bafomet.Message.System.{ViewChangeMessage, ViewChangeMessageKind, stop, stop_data, sync}
use bafomet.Message.Wire.{Signing}
use bafomet.Core.Params.{quorum}
use bafomet.Core.View.{ViewInfo, peek, leader, next_view}
use bafomet.Log.Decision
use bafomet.Log.Store.{Log}
use bafomet.Consensus.State.{Consensus}
use bafomet.Sync.Types.{
  StoredRequest, view_of, kind_of, FinalizeState, ProtoPhase, init, stopping, stopping2,
  stopping_data, syncing, syncing_state, Synchronizer,
}
use bafomet.Sync.Poll.{poll}
use bafomet.Sync.Watch.{
  create, watch_request, watch_forwarded_requests, unwatch_request, unwatch_all_requests,
  watch_all_requests, client_requests_timed_out, install_view,
}
use bafomet.Sync.Watch.Timers.{IsFlagged, watch_all-IsFlagged}
use bafomet.Sync.Stops.{begin_view_change, add_stopped_requests}
use bafomet.Sync.Stops.Kept.{begin_view_change-IsFlagged}
use bafomet.Sync.Finalize.{Node, Processed, finish_change}
use bafomet.Sync.Finalize.Ended.{finish_change-Finished}
use bafomet.Sync.Process.{
  queue_stop, queue_stop_data, queue_sync, queue_any, change_view, count_stop, process_stopping,
  lead_change, count_data, process_stopping_data, follow_change, process_syncing, process_phase,
  process_message,
}

if-Okay {ℓ κ} :
    {A : Type ℓ} (P : A → Type κ) (b : Bool) (x y : Result A)
    → Okay P x
    → Okay P y
    → Okay P (if b then x else y)
if-Okay P true x y h g = h
if-Okay P false x y h g = g

if-IsFlagged :
    {O : Type 0} (b : Bool) (s t : Synchronizer O)
    → IsFlagged s
    → IsFlagged t
    → IsFlagged (if b then s else t)
if-IsFlagged true s t v w = v
if-IsFlagged false s t v w = w

queue_any-IsFlagged :
    {O : Type 0} (s : Synchronizer O) (h : Header) (m : ViewChangeMessage O)
    (k : ViewChangeMessageKind O)
    → IsFlagged s
    → IsFlagged (queue_any s h m k)
unfolding queue_any queue_stop queue_stop_data queue_sync
queue_any-IsFlagged s h m (stop _) v = v
queue_any-IsFlagged s h m (stop_data _) v = v
queue_any-IsFlagged s h m (sync _ _) v = v

module _ {S O : Type 0} {R : OrderedMap (StoredRequest O)} where
  abbrev Ends : Processed S O R → Type 0
  Ends r = IsFlagged r.sync

module _ {S O : Type 0} {R : OrderedMap (StoredRequest O)} (H : Hash) (G : Signing) (node : Node G)
    (now : ℕ) where
  count_stop-Ends :
      (first : Bool) (i : ℕ) (s : Synchronizer O) (c : Consensus) (l : Log S O R)
      → IsFlagged s
      → Okay Ends (count_stop H G node now first i s c l)
  unfolding count_stop change_view install_view
  count_stop-Ends true i s c l v =
      if-Okay Ends (ltb s.tbo.view.params.f i) _ _
        (ok-Okay Ends _ (begin_view_change-IsFlagged H none s v)) (ok-Okay Ends _ v)
  count_stop-Ends false i s c l v =
      let added = add_stopped_requests H s l in
      let watched = watch_all_requests now added.0 in
      if-Okay Ends (i == quorum s.tbo.view.params) _ _
        (>>=-Okay Ends (Decision.collect_data added.1.declog (next_view watched.0.tbo.view)) _
          (λ _ _. ok-Okay Ends _ (watch_all-IsFlagged now added.0)))
        (ok-Okay Ends _ v)

  process_stopping-Ends :
      (first : Bool) (i : ℕ) (s : Synchronizer O) (c : Consensus) (l : Log S O R) (h : Header)
      (m : ViewChangeMessage O) (k : ViewChangeMessageKind O)
      → IsFlagged s
      → Okay Ends (process_stopping H G node now first i s c l h m k)
  unfolding process_stopping queue_stop queue_stop_data queue_sync
  process_stopping-Ends first i s c l h m (stop requests) v =
      if-Okay Ends (not (view_of m == next s.tbo.view.seq)) _ _ (ok-Okay Ends _ v) (
        if-Okay Ends (contains_key h.from s.stopped) _ _ (ok-Okay Ends _ v) (
          count_stop-Ends first (i + 1) (record s { stopped = insert h.from requests s.stopped }) c
            l v))
  process_stopping-Ends first i s c l h m (stop_data _) v = ok-Okay Ends _ v
  process_stopping-Ends first i s c l h m (sync _ _) v = ok-Okay Ends _ v

  finish_change-Ends :
      (st : FinalizeState) (s : Synchronizer O) (c : Consensus) (l : Log S O R)
      → IsFlagged s
      → Okay Ends (finish_change H G node st s c l)
  finish_change-Ends st s c l v r e =
      let d = finish_change-Finished H G node st s c l r e in rw (d.watching, d.watching_timeouts) v

  lead_change-Ends :
      (s : Synchronizer O) (c : Consensus) (l : Log S O R)
      → IsFlagged s
      → Okay Ends (lead_change H G node now s c l)
  unfolding lead_change
  lead_change-Ends s c l v = if-Okay Ends _ _ _ (ok-Okay Ends _ v) (
      >>=-Okay Ends (finish_change H G node _ s c l) _
        (λ r e. ok-Okay Ends _ (finish_change-Ends _ s c l v r e)))

  process_stopping_data-Ends :
      (i : ℕ) (s : Synchronizer O) (c : Consensus) (l : Log S O R) (h : Header)
      (m : ViewChangeMessage O) (k : ViewChangeMessageKind O)
      → IsFlagged s
      → Okay Ends (process_stopping_data H G node now i s c l h m k)
  unfolding process_stopping_data queue_stop queue_stop_data queue_sync count_data
  process_stopping_data-Ends i s c l h m (stop _) v = ok-Okay Ends _ v
  process_stopping_data-Ends i s c l h m (sync _ _) v = ok-Okay Ends _ v
  process_stopping_data-Ends i s c l h m (stop_data _) v =
      let s' : Synchronizer O = record s {
        collects = insert h.from (record { header = h; message = m }) s.collects;
      } in
      if-Okay Ends (not (view_of m == s.tbo.view.seq)) _ _
        (ok-Okay Ends _ (
          if-IsFlagged (leader (peek s.tbo.view (view_of m)) == node.id) (queue_stop_data s h m) s v
            v))
        (if-Okay Ends (not (leader s.tbo.view == node.id)) _ _ (ok-Okay Ends _ v) (
          if-Okay Ends (contains_key h.from s.collects) _ _ (ok-Okay Ends _ v) (
            if-Okay Ends (not (i + 1 == quorum s.tbo.view.params)) _ _ (ok-Okay Ends _ v)
              (lead_change-Ends s' c l v))))

  process_syncing-Ends :
      (s : Synchronizer O) (c : Consensus) (l : Log S O R) (h : Header) (m : ViewChangeMessage O)
      (k : ViewChangeMessageKind O)
      → IsFlagged s
      → Okay Ends (process_syncing H G node now s c l h m k)
  unfolding process_syncing queue_stop queue_stop_data queue_sync follow_change
  process_syncing-Ends s c l h m (stop _) v = ok-Okay Ends _ v
  process_syncing-Ends s c l h m (stop_data _) v = ok-Okay Ends _ v
  process_syncing-Ends s c l h m (sync _ _) v =
      if-Okay Ends (not (view_of m == s.tbo.view.seq)) _ _ (ok-Okay Ends _ v) (
        if-Okay Ends (not (h.from == leader s.tbo.view)) _ _ (ok-Okay Ends _ v)
          (if-Okay Ends _ _ _ (ok-Okay Ends _ v) (finish_change-Ends _ s c l v)))

  process_phase-Ends :
      (p : ProtoPhase) (s : Synchronizer O) (c : Consensus) (l : Log S O R) (h : Header)
      (m : ViewChangeMessage O)
      → IsFlagged s
      → Okay Ends (process_phase H G node now p s c l h m)
  unfolding process_phase
  process_phase-Ends init s c l h m v = ok-Okay Ends _ (queue_any-IsFlagged s h m (kind_of m) v)
  process_phase-Ends (stopping i) s c l h m v = process_stopping-Ends true i s c l h m (kind_of m) v
  process_phase-Ends (stopping2 i) s c l h m v =
      process_stopping-Ends false i s c l h m (kind_of m) v
  process_phase-Ends (stopping_data i) s c l h m v =
      process_stopping_data-Ends i s c l h m (kind_of m) v
  process_phase-Ends syncing s c l h m v = process_syncing-Ends s c l h m (kind_of m) v
  process_phase-Ends syncing_state s c l h m v = λ r e. cc

  pub process_message-IsFlagged :
      (s : Synchronizer O) (c : Consensus) (l : Log S O R) (h : Header) (m : ViewChangeMessage O)
      → IsFlagged s
      → Okay Ends (process_message H G node now s c l h m)
  unfolding process_message
  process_message-IsFlagged s c l h m v = process_phase-Ends s.phase s c l h m v

module _ (S : Type 0) {O : Type 0} (R : OrderedMap (StoredRequest O)) (H : Hash) (G : Signing)
    (node : Node G) where
  -- What a replica does with its synchronizer.
  pub data SyncStep (s s' : Synchronizer O) : Type 0 where
    watch : (now : ℕ) (d : Digest) → s' ≡ (watch_request now d s).0 → SyncStep s s'
    watch_forwarded :
        (now : ℕ) (requests : List (StoredRequest O)) (l : Log S O R)
        → s' ≡ (watch_forwarded_requests H now requests s l).0
        → SyncStep s s'
    unwatch : (d : Digest) → s' ≡ unwatch_request d s → SyncStep s s'
    unwatch_all : s' ≡ unwatch_all_requests s → SyncStep s s'
    watch_all : (now : ℕ) → s' ≡ (watch_all_requests now s).0 → SyncStep s s'
    time_out :
        (now : ℕ) (seq : SeqNo) → s' ≡ (client_requests_timed_out now seq s).1 → SyncStep s s'
    begin :
        (requests : Option (List (StoredRequest O)))
        → s' ≡ (begin_view_change H requests s).0
        → SyncStep s s'
    polled : s' ≡ (poll s).1 → SyncStep s s'
    process :
        (now : ℕ) (c : Consensus) (l : Log S O R) (h : Header) (m : ViewChangeMessage O)
        (r : Processed S O R)
        → process_message H G node now s c l h m ≡ ok r
        → s' ≡ r.sync
        → SyncStep s s'
    finish :
        (st : FinalizeState) (c : Consensus) (l : Log S O R) (r : Processed S O R)
        → finish_change H G node st (record s { finalize_state = none }) c l ≡ ok r
        → s' ≡ r.sync
        → SyncStep s s'
    install : (view : ViewInfo) → s' ≡ install_view view s → SyncStep s s'

  -- The states that are reached from a new one.
  pub data IsReached (dur : ℕ) (view : ViewInfo) : Synchronizer O → Type 0 where
    start : (s : Synchronizer O) → s ≡ create dur view → IsReached dur view s
    step : (s s' : Synchronizer O) → IsReached dur view s → SyncStep s s' → IsReached dur view s'
