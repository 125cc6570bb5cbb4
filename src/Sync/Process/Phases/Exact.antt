-- ===== src/Sync/Process/Phases/Exact.antt =====
-- Where a STOP message leads, exactly (bft/sync/mod.rs).
use bafomet.Base.{
  ℕ, ◌+◌, subst, sym, true, false, not, ◌&&◌, ltb, ◌==◌, if◌then◌else◌, Bool-cases, inl, inr, Okay,
  ok-Okay, >>=-Okay, List, ◌≡◌, refl, contains_key, insert,
}
use bafomet.Collections.{OrderedMap}
use bafomet.Crypto.{Hash}
use bafomet.Message.{NodeId, Header}
use bafomet.Message.System.{ViewChangeMessage, stop}
use bafomet.Message.Wire.{Signing}
use bafomet.Core.Params.{quorum}
use bafomet.Core.View.{ViewInfo, next_view, leader}
use bafomet.Log.Store.{Log}
use bafomet.Log.Decision
use bafomet.Consensus.State.{Consensus}
use bafomet.Sync.Types.{
  StoredRequest, view_of, kind_of, ProtoPhase, init, stopping, stopping2, stopping_data, syncing,
  syncing_state, Synchronizer,
}
use bafomet.Sync.Tbo
use bafomet.Sync.Watch.{install_view, watch_all_requests}
use bafomet.Sync.Watch.Kept.{watch_all_requests-IsKept}
use bafomet.Sync.Stops.{add_stopped_requests}
use bafomet.Sync.Stops.Kept.{begin_view_change-Begun, add_stopped_requests-Begun}
use bafomet.Sync.Finalize.{Node, Processed}
use bafomet.Ordering.SeqNo.{next}
use bafomet.Sync.Process.{
  change_view, count_stop, process_stopping, process_phase, process_message, queue_stop, queue_any,
  process_stopping_data, process_syncing,
}

-- The view and the phase after one more STOP message is counted by the replica `id`.
abbrev pub counted_stop : NodeId → ViewInfo → ProtoPhase → ViewInfo × ProtoPhase
counted_stop id view (stopping i) =
    (view, if ltb view.params.f (i + 1) then stopping2 (i + 1) else stopping (i + 1))
counted_stop id view (stopping2 i) =
    if i + 1 == quorum view.params
    then (next_view view, if not (id == leader (next_view view)) then syncing else stopping_data 0)
    else (view, stopping2 (i + 1))
counted_stop id view init = (view, init)
counted_stop id view (stopping_data i) = (view, stopping_data i)
counted_stop id view syncing = (view, syncing)
counted_stop id view syncing_state = (view, syncing_state)

-- It is counted if it is for the next view and the first one of its sender.
abbrev pub after_stop :
    {O : Type 0} → NodeId → Synchronizer O → Header → ViewChangeMessage O → ViewInfo × ProtoPhase
after_stop id s h m =
    if view_of m == next s.tbo.view.seq && not (contains_key h.from s.stopped)
    then counted_stop id s.tbo.view s.phase
    else (s.tbo.view, s.phase)

-- Outside the phases that count STOP messages.
unmoved :
    {O : Type 0} (id : NodeId) (p : ProtoPhase) (s : Synchronizer O) (h : Header)
    (m : ViewChangeMessage O)
    → s.phase ≡ p
    → counted_stop id s.tbo.view p ≡ (s.tbo.view, p)
    → (s.tbo.view, s.phase) ≡ after_stop id s h m
unmoved id p s h m e q =
    elim (Bool-cases (view_of m == next s.tbo.view.seq && not (contains_key h.from s.stopped))) [
      | inl b ↦ rw (b, e, q) refl
      | inr b ↦ rw b refl
    ]

module _ {S O : Type 0} {R : OrderedMap (StoredRequest O)} where
  abbrev pub Reaches : ViewInfo × ProtoPhase → Processed S O R → Type 0
  Reaches e r = (r.sync.tbo.view, r.sync.phase) ≡ e

module _ {S O : Type 0} {R : OrderedMap (StoredRequest O)} (H : Hash) (G : Signing) (node : Node G)
    (now : ℕ) where
  count_first-Reaches :
      (i : ℕ) (s : Synchronizer O) (c : Consensus) (l : Log S O R)
      → s.phase ≡ stopping i
      → Okay
          (Reaches (counted_stop node.id s.tbo.view (stopping i)))
          (count_stop H G node now true (i + 1) s c l)
  unfolding count_stop
  count_first-Reaches i s c l p = elim (Bool-cases (ltb s.tbo.view.params.f (i + 1))) [
    | inl e ↦
        let b = begin_view_change-Begun H s i p in
        rw (e, count_stop) (ok-Okay (Reaches _) _ (rw (b.phase, b.tbo) refl))
    | inr e ↦ rw (e, count_stop) (ok-Okay (Reaches _) _ refl)
  ]

  change_view-Reaches :
      (s : Synchronizer O) (c : Consensus) (l : Log S O R)
      → Okay
          (Reaches (
            next_view s.tbo.view,
            if not (node.id == leader (next_view s.tbo.view)) then syncing else stopping_data 0,
          ))
          (change_view H G node now s c l)
  unfolding change_view install_view
  change_view-Reaches s c l =
      let added = add_stopped_requests H s l in
      let a = add_stopped_requests-Begun H s l in
      let watched = watch_all_requests now added.0 in
      let w = watch_all_requests-IsKept now added.0 in
      let view = next_view watched.0.tbo.view in
      >>=-Okay (Reaches _) (Decision.collect_data added.1.declog view) _
        (λ collect _. ok-Okay (Reaches _) _ (rw (w.tbo, a.tbo) refl))

  count_second-Reaches :
      (i : ℕ) (s : Synchronizer O) (c : Consensus) (l : Log S O R)
      → Okay
          (Reaches (counted_stop node.id s.tbo.view (stopping2 i)))
          (count_stop H G node now false (i + 1) s c l)
  unfolding count_stop
  count_second-Reaches i s c l = elim (Bool-cases (i + 1 == quorum s.tbo.view.params)) [
    | inl e ↦ rw (e, count_stop) (change_view-Reaches s c l)
    | inr e ↦ rw (e, count_stop) (ok-Okay (Reaches _) _ refl)
  ]

  count_first_phase :
      (i : ℕ) (s : Synchronizer O) (c : Consensus) (l : Log S O R)
      → s.phase ≡ stopping i
      → Okay
          (Reaches (counted_stop node.id s.tbo.view s.phase))
          (count_stop H G node now true (i + 1) s c l)
  count_first_phase i s c l p =
      subst
        (λ q.
          Okay (Reaches (counted_stop node.id s.tbo.view q))
            (count_stop H G node now true (i + 1) s c l))
        (sym p) (count_first-Reaches i s c l p)

  count_second_phase :
      (i : ℕ) (s : Synchronizer O) (c : Consensus) (l : Log S O R)
      → s.phase ≡ stopping2 i
      → Okay
          (Reaches (counted_stop node.id s.tbo.view s.phase))
          (count_stop H G node now false (i + 1) s c l)
  count_second_phase i s c l p =
      subst
        (λ q.
          Okay (Reaches (counted_stop node.id s.tbo.view q))
            (count_stop H G node now false (i + 1) s c l))
        (sym p) (count_second-Reaches i s c l)

  process_stopping-Reaches :
      (i : ℕ) (s : Synchronizer O) (c : Consensus) (l : Log S O R) (h : Header)
      (m : ViewChangeMessage O) (requests : List (StoredRequest O))
      → s.phase ≡ stopping i
      → Okay
          (Reaches (after_stop node.id s h m))
          (process_stopping H G node now true i s c l h m (stop requests))
  unfolding process_stopping queue_stop Tbo.queue_stop
  process_stopping-Reaches i s c l h m requests p =
      elim (Bool-cases (view_of m == next s.tbo.view.seq)) [
        | inr e ↦ rw (e, process_stopping) (ok-Okay (Reaches _) _ refl)
        | inl e ↦ elim (Bool-cases (contains_key h.from s.stopped)) [
          | inl f ↦ rw (e, f, process_stopping) (ok-Okay (Reaches _) _ refl)
          | inr f ↦
              rw (e, f, process_stopping)
                (count_first_phase i (record s { stopped = insert h.from requests s.stopped }) c l
                  p)
        ]
      ]

  process_stopping2-Reaches :
      (i : ℕ) (s : Synchronizer O) (c : Consensus) (l : Log S O R) (h : Header)
      (m : ViewChangeMessage O) (requests : List (StoredRequest O))
      → s.phase ≡ stopping2 i
      → Okay
          (Reaches (after_stop node.id s h m))
          (process_stopping H G node now false i s c l h m (stop requests))
  unfolding process_stopping queue_stop Tbo.queue_stop
  process_stopping2-Reaches i s c l h m requests p =
      elim (Bool-cases (view_of m == next s.tbo.view.seq)) [
        | inr e ↦ rw (e, process_stopping) (ok-Okay (Reaches _) _ refl)
        | inl e ↦ elim (Bool-cases (contains_key h.from s.stopped)) [
          | inl f ↦ rw (e, f, process_stopping) (ok-Okay (Reaches _) _ refl)
          | inr f ↦
              rw (e, f, process_stopping)
                (count_second_phase i (record s { stopped = insert h.from requests s.stopped }) c l
                  p)
        ]
      ]

  process_phase-Reaches :
      (p : ProtoPhase) (s : Synchronizer O) (c : Consensus) (l : Log S O R) (h : Header)
      (m : ViewChangeMessage O) (requests : List (StoredRequest O))
      → s.phase ≡ p
      → kind_of m ≡ stop requests
      → Okay (Reaches (after_stop node.id s h m)) (process_phase H G node now p s c l h m)
  unfolding process_phase queue_any queue_stop Tbo.queue_stop process_stopping_data process_syncing
  process_phase-Reaches init s c l h m requests p k =
      rw (process_phase, k) (ok-Okay (Reaches _) _ (unmoved node.id init s h m p refl))
  process_phase-Reaches (stopping i) s c l h m requests p k =
      rw (process_phase, k) (process_stopping-Reaches i s c l h m requests p)
  process_phase-Reaches (stopping2 i) s c l h m requests p k =
      rw (process_phase, k) (process_stopping2-Reaches i s c l h m requests p)
  process_phase-Reaches (stopping_data i) s c l h m requests p k =
      rw (process_phase, k, process_stopping_data)
        (ok-Okay (Reaches _) _ (unmoved node.id (stopping_data i) s h m p refl))
  process_phase-Reaches syncing s c l h m requests p k =
      rw (process_phase, k, process_syncing)
        (ok-Okay (Reaches _) _ (unmoved node.id syncing s h m p refl))
  process_phase-Reaches syncing_state s c l h m requests p k = λ x e. cc

  pub process_message-Reaches :
      (s : Synchronizer O) (c : Consensus) (l : Log S O R) (h : Header) (m : ViewChangeMessage O)
      (requests : List (StoredRequest O))
      → kind_of m ≡ stop requests
      → Okay (Reaches (after_stop node.id s h m)) (process_message H G node now s c l h m)
  unfolding process_message
  process_message-Reaches s c l h m requests e =
      process_phase-Reaches s.phase s c l h m requests refl e
