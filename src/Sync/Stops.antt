-- ===== src/Sync/Stops.antt =====
-- The requests of the STOP messages, and the start of a view change (bft/sync/mod.rs). A hash map
-- is drained in the order of its list.
pub mod Kept
use bafomet.Base.{
  ◌+◌, if◌then◌else◌, Option, none, some, is_some, List, [], ◌∷◌, map, HashMap, get, insert,
}
use bafomet.Collections.{OrderedMap}
use bafomet.Crypto.{Hash, unique_digest}
use bafomet.Ordering.SeqNo.{next}
use bafomet.Message.System.{view_change, stop, broadcast}
use bafomet.Log.Store.{Log, insert_request}
use bafomet.Consensus.State.{targets}
use bafomet.Sync.Types.{
  StoredRequest, timed_out, ProtoPhase, stopping, stopping2, Synchronizer, Outgoing, change,
  forward,
}
use bafomet.Sync.Watch.{unwatch_all_requests}

module _ {O : Type 0} (H : Hash) where
  -- `all_reqs.insert(..)` for each request.
  unfoldable pub insert_all :
      List (StoredRequest O) → HashMap (StoredRequest O) → HashMap (StoredRequest O)
  insert_all [] m = m
  insert_all (r ∷ rs) m = insert_all rs (insert (unique_digest H r.header) r m)

  -- `all_reqs.entry(..).or_insert_with(..)` for each request.
  unfoldable pub add_all :
      List (StoredRequest O) → HashMap (StoredRequest O) → HashMap (StoredRequest O)
  add_all [] m = m
  add_all (r ∷ rs) m = add_all rs (
      if is_some (get (unique_digest H r.header) m)
      then m
      else insert (unique_digest H r.header) r m)

  unfoldable pub add_stops :
      HashMap (List (StoredRequest O)) → HashMap (StoredRequest O) → HashMap (StoredRequest O)
  unfolding add_all
  add_stops [] m = m
  add_stops ((node, rs) ∷ stopped) m = add_stops stopped (add_all rs m)

  -- Without requests that timed out, the STOP messages are used up.
  unfoldable pub stopped_requests :
      Option (List (StoredRequest O)) → Synchronizer O → List (StoredRequest O) × Synchronizer O
  unfolding insert_all add_stops
  stopped_requests (some requests) s =
      (map (λ e. e.1) (add_stops s.stopped (insert_all requests [])), s)
  stopped_requests none s = (map (λ e. e.1) (add_stops s.stopped []), record s { stopped = [] })

  -- The phase of a view change that begins.
  begin_phase : Option (List (StoredRequest O)) → Synchronizer O → ProtoPhase → Synchronizer O
  begin_phase none s (stopping i) = record s { phase = stopping2 (i + 1) }
  begin_phase (some _) s (stopping i) = record s { phase = stopping2 i }
  begin_phase _ s _ = record s { stopped = []; collects = []; phase = stopping2 0 }

  unfoldable pub begin_view_change :
      Option (List (StoredRequest O)) → Synchronizer O → Synchronizer O × List (Outgoing O)
  unfolding begin_phase stopped_requests unwatch_all_requests
  begin_view_change requests s =
      let r = stopped_requests requests (unwatch_all_requests (begin_phase requests s s.phase)) in
      (
        r.1,
        change (broadcast (view_change (next r.1.tbo.view.seq) (stop r.0)) (targets r.1.tbo.view))
            ∷ [],
      )

  unfoldable pub forward_requests : List (StoredRequest O) → Synchronizer O → List (Outgoing O)
  forward_requests requests s = forward (broadcast requests (targets s.tbo.view)) ∷ []

module _ {S O : Type 0} {R : OrderedMap (StoredRequest O)} (H : Hash) where
  watch_stopped : List (StoredRequest O) → Synchronizer O → Log S O R → Synchronizer O × Log S O R
  watch_stopped [] s l = (s, l)
  watch_stopped (r ∷ rs) s l =
      watch_stopped rs
        (record s { watching = insert (unique_digest H r.header) timed_out s.watching })
        (insert_request H l r.header r.message)

  unfoldable pub add_stopped_requests : Synchronizer O → Log S O R → Synchronizer O × Log S O R
  unfolding stopped_requests watch_stopped
  add_stopped_requests s l = let r = stopped_requests H none s in watch_stopped r.0 r.1 l
