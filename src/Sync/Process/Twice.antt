-- ===== src/Sync/Process/Twice.antt =====
-- A STOP message that is counted twice (bft/sync/mod.rs).
use bafomet.Base.{
  ℕ, ◌+◌, ◌≤◌, false, none, ok, ◌>>=◌, Okay, ok-Okay, >>=-Okay, List, [], get, contains_key, insert,
  ◌≡◌, sym, ap, ◌∙◌, subst, arith,
}
use bafomet.Collections.{OrderedMap}
use bafomet.Crypto.{Hash}
use bafomet.Ordering.SeqNo.{next}
use bafomet.Message.{Header}
use bafomet.Message.System.{ViewChangeMessage, stop}
use bafomet.Message.Wire.{Signing}
use bafomet.Core.Params.{quorum}
use bafomet.Core.View.{next_view}
use bafomet.Log.Decision
use bafomet.Log.Store.{Log}
use bafomet.Consensus.State.{Consensus}
use bafomet.Sync.Types.{StoredRequest, view_of, kind_of, stopping, stopping2, running, Synchronizer}
use bafomet.Sync.Watch.{install_view, watch_all_requests}
use bafomet.Sync.Watch.Kept.{watch_all_requests-IsKept}
use bafomet.Sync.Stops.{begin_view_change, add_stopped_requests}
use bafomet.Sync.Stops.Kept.{begin_view_change-Begun, add_stopped_requests-Begun}
use bafomet.Sync.Finalize.{Node, Processed}
use bafomet.Sync.Process.{
  only, change_view, count_stop, process_stopping, process_phase, process_message,
}

module _ {S O : Type 0} {R : OrderedMap (StoredRequest O)} (H : Hash) (G : Signing) (node : Node G)
    (now : ℕ) where
  change_view_installs :
      (s : Synchronizer O) (c : Consensus) (l : Log S O R)
      → Okay (λ r. r.sync.tbo.view ≡ next_view s.tbo.view) (change_view H G node now s c l)
  unfolding change_view install_view
  change_view_installs s c l =
      let added = add_stopped_requests H s l in
      let a = add_stopped_requests-Begun H s l in
      let watched = watch_all_requests now added.0 in
      let w = watch_all_requests-IsKept now added.0 in
      let P : Processed S O R → Type 0 = λ r. r.sync.tbo.view ≡ next_view s.tbo.view in
      >>=-Okay P (Decision.collect_data added.1.declog (next_view watched.0.tbo.view)) _
        (λ collect _. ok-Okay P _ (ap (λ t. next_view t.view) (w.tbo ∙ a.tbo)))

  -- The last vote that is needed.
  process_message_enough :
      (j : ℕ) (s : Synchronizer O) (c : Consensus) (l : Log S O R) (h : Header)
      (m : ViewChangeMessage O) (requests : List (StoredRequest O))
      → s.phase ≡ stopping2 j
      → s.stopped ≡ []
      → kind_of m ≡ stop requests
      → view_of m ≡ next s.tbo.view.seq
      → j + 1 ≡ quorum s.tbo.view.params
      → Okay (λ r. r.sync.tbo.view ≡ next_view s.tbo.view) (process_message H G node now s c l h m)
  unfolding process_message process_phase process_stopping count_stop contains_key get
  process_message_enough j s c l h m requests p d k v q =
      let s' : Synchronizer O = record s { stopped = insert h.from requests s.stopped } in
      let same : process_message H G node now s c l h m ≡ change_view H G node now s' c l =
        ground (arith, p, d, k, v, q) in
      subst (λ x. Okay (λ r. r.sync.tbo.view ≡ next_view s.tbo.view) x) (sym same)
        (change_view_installs s' c l)

  process_message_join :
      (i : ℕ) (s : Synchronizer O) (c : Consensus) (l : Log S O R) (h : Header)
      (m : ViewChangeMessage O) (requests : List (StoredRequest O))
      → s.phase ≡ stopping i
      → kind_of m ≡ stop requests
      → view_of m ≡ next s.tbo.view.seq
      → contains_key h.from s.stopped ≡ false
      → s.tbo.view.params.f ≤ i
      → process_message H G node now s c l h m
        ≡ ok
            (record (only H G node now running
              (begin_view_change H none (record s { stopped = insert h.from requests s.stopped })).0
              c
              l) {
                sent =
                    (begin_view_change H none
                      (record s { stopped = insert h.from requests s.stopped })).1;
              })
  unfolding process_message process_phase process_stopping count_stop
  process_message_join i s c l h m requests p k v n f = ground (arith, p, k, v, n, f)

  -- The same STOP message of the same node, processed twice, may make a replica change its view: it
  -- is counted when it makes the replica join the view change, which forgets who has voted, and it
  -- is counted again, so that the quorum is reached with one node fewer.
  pub process_message_twice :
      (i : ℕ) (s : Synchronizer O) (c : Consensus) (l : Log S O R) (h : Header)
      (m : ViewChangeMessage O) (requests : List (StoredRequest O)) (r : Processed S O R)
      → s.phase ≡ stopping i
      → kind_of m ≡ stop requests
      → view_of m ≡ next s.tbo.view.seq
      → contains_key h.from s.stopped ≡ false
      → s.tbo.view.params.f ≤ i
      → i + 2 ≡ quorum s.tbo.view.params
      → (process_message H G node now s c l h m >>= λ r.
          process_message H G node now r.sync r.consensus_ r.log h m)
        ≡ ok r
      → r.sync.tbo.view ≡ next_view s.tbo.view
  process_message_twice i s c l h m requests r p k v n f q e =
      let s' : Synchronizer O = record s { stopped = insert h.from requests s.stopped } in
      let joined = (begin_view_change H none s').0 in
      let b = begin_view_change-Begun H s' i p in
      let e' : process_message H G node now joined c l h m ≡ ok r =
        subst (λ x. (x >>= λ r. process_message H G node now r.sync r.consensus_ r.log h m) ≡ ok r)
          (process_message_join i s c l h m requests p k v n f) e in
      let tbo : joined.tbo ≡ s.tbo = b.tbo in
      process_message_enough (i + 1) joined c l h m requests b.phase b.stopped k
        (v ∙ ap (λ t. next t.view.seq) (sym tbo))
        (subst (λ t. i + 1 + 1 ≡ quorum t.view.params) (sym tbo) (ground (arith, q))) r e'
      ∙ ap (λ t. next_view t.view) tbo
