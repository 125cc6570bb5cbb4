-- ===== src/Sync/Process/Phases/Stopping.antt =====
-- The moves that STOP messages make (bft/sync/mod.rs).
use bafomet.Base.{
  ℕ, ◌+◌, true, false, not, ltb, ◌==◌, if◌then◌else◌, Bool-cases, inl, inr, Okay, ok-Okay, >>=-Okay,
  List, [], ◌≡◌, refl, ap, ◌∙◌, arith, contains_key, insert, length-insert,
}
use bafomet.Collections.{OrderedMap}
use bafomet.Crypto.{Hash}
use bafomet.Message.{NodeId, Header}
use bafomet.Message.System.{ViewChangeMessage, ViewChangeMessageKind, stop, stop_data, sync}
use bafomet.Message.Wire.{Signing}
use bafomet.Core.Params.{quorum}
use bafomet.Core.View.{next_view, leader}
use bafomet.Log.Store.{Log}
use bafomet.Consensus.State.{Consensus}
use bafomet.Sync.Types.{
  StoredRequest, view_of, stopping, stopping2, stopping_data, syncing, Synchronizer,
}
use bafomet.Sync.Tbo
use bafomet.Log.Decision
use bafomet.Sync.Watch.{install_view, watch_all_requests}
use bafomet.Sync.Watch.Kept.{watch_all_requests-IsKept}
use bafomet.Sync.Stops.{add_stopped_requests}
use bafomet.Sync.Stops.Kept.{begin_view_change-Begun, add_stopped_requests-Begun}
use bafomet.Sync.Finalize.{Node, Processed}
use bafomet.Ordering.SeqNo.{next}
use bafomet.Sync.Process.{
  change_view, count_stop, process_stopping, queue_stop, queue_stop_data, queue_sync,
}
use bafomet.Sync.Process.Phases.{count, join, count_more, follow, lead, Stepped, keeps, steps}

module _ {S O : Type 0} {R : OrderedMap (StoredRequest O)} (H : Hash) (G : Signing) (node : Node G)
    (now : ℕ) where
  count_first-Stepped :
      (i : ℕ) (from : NodeId) (rs : List (StoredRequest O)) (s : Synchronizer O) (c : Consensus)
      (l : Log S O R)
      → s.phase ≡ stopping i
      → contains_key from s.stopped ≡ false
      → Okay (Stepped node.id s) (
          count_stop H G node now true
            (i + 1)
            (record s { stopped = insert from rs s.stopped })
            c
            l)
  unfolding count_stop
  count_first-Stepped i from rs s c l p fresh =
      let s' : Synchronizer O = record s { stopped = insert from rs s.stopped } in
      elim (Bool-cases (ltb s.tbo.view.params.f (i + 1))) [
        | inl e ↦
            let b = begin_view_change-Begun H s' i p in
            rw (e, count_stop)
              (ok-Okay (Stepped node.id s) _ (
                steps node.id s (stopping i) (stopping2 (i + 1)) _ p b.phase
                  (join i (ap (λ t. t.view) b.tbo) p (ground (arith, e)) b.phase)
                  (λ h. rw (b.stopped, b.collects) (ground arith, h.1))))
        | inr e ↦
            rw (e, count_stop)
              (ok-Okay (Stepped node.id s) _ (
                steps node.id s (stopping i) (stopping (i + 1)) _ p refl
                  (count i refl p (ground (arith, e)) refl)
                  (λ h. (ground (arith, length-insert from rs s.stopped, fresh, h.0), h.1))))
      ]

  changed :
      (i : ℕ) (s : Synchronizer O) (r : Processed S O R)
      → s.phase ≡ stopping2 i
      → i + 1 ≡ quorum s.tbo.view.params
      → r.sync.tbo.view ≡ next_view s.tbo.view
      → r.sync.phase
        ≡ (if not (node.id == leader r.sync.tbo.view) then syncing else stopping_data 0)
      → r.sync.stopped ≡ []
      → r.sync.collects ≡ s.collects
      → Stepped node.id s r
  changed i s r p e v q a b = elim (Bool-cases (node.id == leader r.sync.tbo.view)) [
    | inl f ↦
        let q' : r.sync.phase ≡ stopping_data 0 = ground (arith, f, q) in
        steps node.id s (stopping2 i) (stopping_data 0) r p q' (lead i v p e (ground (arith, f)) q')
          (λ h. rw (a, b) (refl, ground (arith, h.1)))
    | inr f ↦
        let q' : r.sync.phase ≡ syncing = ground (arith, f, q) in
        steps node.id s (stopping2 i) syncing r p q' (follow i v p e (ground (arith, f)) q')
          (λ h. rw (a, b) (refl, h.1))
  ]

  -- The state that a quorum of STOP messages leads to.
  change_view-Stepped :
      (i : ℕ) (s s' : Synchronizer O) (c : Consensus) (l : Log S O R)
      → s.phase ≡ stopping2 i
      → i + 1 ≡ quorum s.tbo.view.params
      → s'.tbo ≡ s.tbo
      → s'.collects ≡ s.collects
      → Okay (Stepped node.id s) (change_view H G node now s' c l)
  unfolding change_view install_view
  change_view-Stepped i s s' c l p e t d =
      let added = add_stopped_requests H s' l in
      let a = add_stopped_requests-Begun H s' l in
      let watched = watch_all_requests now added.0 in
      let w = watch_all_requests-IsKept now added.0 in
      let view = next_view watched.0.tbo.view in
      >>=-Okay (Stepped node.id s) (Decision.collect_data added.1.declog view) _ (λ collect _.
        ok-Okay (Stepped node.id s) _ (
          changed i s _ p e (ap (λ t. next_view t.view) (w.tbo ∙ a.tbo ∙ t)) refl
            (w.stopped ∙ a.stopped) (w.collects ∙ a.collects ∙ d)))

  count_second-Stepped :
      (i : ℕ) (from : NodeId) (rs : List (StoredRequest O)) (s : Synchronizer O) (c : Consensus)
      (l : Log S O R)
      → s.phase ≡ stopping2 i
      → contains_key from s.stopped ≡ false
      → Okay (Stepped node.id s) (
          count_stop H G node now false
            (i + 1)
            (record s { stopped = insert from rs s.stopped })
            c
            l)
  unfolding count_stop
  count_second-Stepped i from rs s c l p fresh =
      elim (Bool-cases (i + 1 == quorum s.tbo.view.params)) [
        | inl e ↦
            rw (e, count_stop)
              (change_view-Stepped i s (record s { stopped = insert from rs s.stopped }) c l p
                (ground (arith, e)) refl refl)
        | inr e ↦
            rw (e, count_stop)
              (ok-Okay (Stepped node.id s) _ (
                steps node.id s (stopping2 i) (stopping2 (i + 1)) _ p refl
                  (count_more i refl p (ground (arith, e)) refl)
                  (λ h. (ground (arith, length-insert from rs s.stopped, fresh, h.0), h.1))))
      ]

  pub process_stopping-Stepped :
      (i : ℕ) (s : Synchronizer O) (c : Consensus) (l : Log S O R) (h : Header)
      (m : ViewChangeMessage O) (k : ViewChangeMessageKind O)
      → s.phase ≡ stopping i
      → Okay (Stepped node.id s) (process_stopping H G node now true i s c l h m k)
  unfolding process_stopping queue_stop queue_stop_data queue_sync Tbo.queue_stop
      Tbo.queue_stop_data Tbo.queue_sync
  process_stopping-Stepped i s c l h m (stop_data _) p =
      ok-Okay (Stepped node.id s) _ (keeps node.id s _ refl refl refl refl)
  process_stopping-Stepped i s c l h m (sync _ _) p =
      ok-Okay (Stepped node.id s) _ (keeps node.id s _ refl refl refl refl)
  process_stopping-Stepped i s c l h m (stop requests) p =
      elim (Bool-cases (view_of m == next s.tbo.view.seq)) [
        | inr e ↦
            rw (e, process_stopping)
              (ok-Okay (Stepped node.id s) _ (keeps node.id s _ refl refl refl refl))
        | inl e ↦ elim (Bool-cases (contains_key h.from s.stopped)) [
          | inl f ↦
              rw (e, f, process_stopping)
                (ok-Okay (Stepped node.id s) _ (keeps node.id s _ refl refl refl refl))
          | inr f ↦ rw (e, f, process_stopping) (count_first-Stepped i h.from requests s c l p f)
        ]
      ]

  pub process_stopping2-Stepped :
      (i : ℕ) (s : Synchronizer O) (c : Consensus) (l : Log S O R) (h : Header)
      (m : ViewChangeMessage O) (k : ViewChangeMessageKind O)
      → s.phase ≡ stopping2 i
      → Okay (Stepped node.id s) (process_stopping H G node now false i s c l h m k)
  unfolding process_stopping queue_stop queue_stop_data queue_sync Tbo.queue_stop
      Tbo.queue_stop_data Tbo.queue_sync
  process_stopping2-Stepped i s c l h m (stop_data _) p =
      ok-Okay (Stepped node.id s) _ (keeps node.id s _ refl refl refl refl)
  process_stopping2-Stepped i s c l h m (sync _ _) p =
      ok-Okay (Stepped node.id s) _ (keeps node.id s _ refl refl refl refl)
  process_stopping2-Stepped i s c l h m (stop requests) p =
      elim (Bool-cases (view_of m == next s.tbo.view.seq)) [
        | inr e ↦
            rw (e, process_stopping)
              (ok-Okay (Stepped node.id s) _ (keeps node.id s _ refl refl refl refl))
        | inl e ↦ elim (Bool-cases (contains_key h.from s.stopped)) [
          | inl f ↦
              rw (e, f, process_stopping)
                (ok-Okay (Stepped node.id s) _ (keeps node.id s _ refl refl refl refl))
          | inr f ↦ rw (e, f, process_stopping) (count_second-Stepped i h.from requests s c l p f)
        ]
      ]
