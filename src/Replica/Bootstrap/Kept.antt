-- ===== src/Replica/Bootstrap/Kept.antt =====
-- What a replica that starts keeps of the messages that came in before (bft/core/server/mod.rs).
use bafomet.Base.{
  ℕ, ◌||◌, true, ◌==◌, ok, Okay, ok-Okay, >>=-Okay, List, [], ◌∷◌, All, contains_key, get-insert,
  ◌≡◌, refl, sym, ap, ◌++◌, ◌∙◌, arith,
}
use bafomet.Collections.{OrderedMap}
use bafomet.Crypto.{Hash, unique_digest}
use bafomet.Message.{Digest, Header, RequestMessage}
use bafomet.Message.System.{
  SystemMessage, request, reply, consensus, cst, view_change_msg, forwarded_requests,
}
use bafomet.Log.Store.{has_request, insert_request}
use bafomet.Log.Store.Requests.{has_request-find, find_request-insert_request}
use bafomet.Consensus.Tbo.{TboQueue, queue}
use bafomet.Sync.Types.{StoredRequest, fresh}
use bafomet.Sync.Watch.Kept.{watching-watch_request}
use bafomet.Replica.Types.{
  Replica, Incoming, system, timeout, execution_finished, execution_finished_with_appstate,
  connected_tx, connected_rx, disconnected_tx, disconnected_rx, Effect,
}
use bafomet.Replica.Events.{request_received}
use bafomet.Replica.Bootstrap.{rogue_system, rogue_received, all_received}

module _ {S O P : Type 0} where
  -- The consensus messages, queued one after the other.
  abbrev queue_one : SystemMessage S O P → Header → TboQueue → TboQueue
  queue_one (consensus m) h t = queue t h m
  queue_one (request _) h t = t
  queue_one (reply _) h t = t
  queue_one (cst _) h t = t
  queue_one (view_change_msg _) h t = t
  queue_one (forwarded_requests _) h t = t

  abbrev queue_system : Incoming S O P → TboQueue → TboQueue
  queue_system (system h m) t = queue_one m h t
  queue_system (timeout _) t = t
  queue_system (execution_finished _) t = t
  queue_system (execution_finished_with_appstate _ _) t = t
  queue_system (connected_tx _) t = t
  queue_system (connected_rx _) t = t
  queue_system (disconnected_tx _) t = t
  queue_system (disconnected_rx _) t = t

  abbrev pub queue_all : List (Incoming S O P) → TboQueue → TboQueue
  queue_all [] t = t
  queue_all (m ∷ ms) t = queue_all ms (queue_system m t)

module _ {S O : Type 0} {R : OrderedMap (StoredRequest O)} where
  -- A request is in the log, and it is watched.
  abbrev pub IsKnown : Replica S O R → Digest → Type 0
  IsKnown r d = (has_request r.log d ≡ true) × (contains_key d r.synchronizer.watching ≡ true)

module _ {S O : Type 0} (P : Type 0) {R : OrderedMap (StoredRequest O)} (H : Hash) where
  abbrev HasSystem : Replica S O R → Header → SystemMessage S O P → Type 0
  HasSystem r h (request _) = IsKnown r (unique_digest H h)
  HasSystem r h (consensus _) = Unit
  HasSystem r h (reply _) = Unit
  HasSystem r h (cst _) = Unit
  HasSystem r h (view_change_msg _) = Unit
  HasSystem r h (forwarded_requests _) = Unit

  -- If the message is a request, it is known.
  abbrev pub Has : Replica S O R → Incoming S O P → Type 0
  Has r (system h m) = HasSystem r h m
  Has r (timeout _) = Unit
  Has r (execution_finished _) = Unit
  Has r (execution_finished_with_appstate _ _) = Unit
  Has r (connected_tx _) = Unit
  Has r (connected_rx _) = Unit
  Has r (disconnected_tx _) = Unit
  Has r (disconnected_rx _) = Unit

  HasSystem-IsKnown :
      (r u : Replica S O R) (h : Header) (m : SystemMessage S O P)
      → ((d : Digest) → IsKnown r d → IsKnown u d)
      → HasSystem r h m
      → HasSystem u h m
  HasSystem-IsKnown r u h (request m) k v = k (unique_digest H h) v
  HasSystem-IsKnown r u h (consensus _) k v = tt
  HasSystem-IsKnown r u h (reply _) k v = tt
  HasSystem-IsKnown r u h (cst _) k v = tt
  HasSystem-IsKnown r u h (view_change_msg _) k v = tt
  HasSystem-IsKnown r u h (forwarded_requests _) k v = tt

  Has-IsKnown :
      (r u : Replica S O R) (m : Incoming S O P)
      → ((d : Digest) → IsKnown r d → IsKnown u d)
      → Has r m
      → Has u m
  Has-IsKnown r u (system h m) k v = HasSystem-IsKnown r u h m k v
  Has-IsKnown r u (timeout _) k v = tt
  Has-IsKnown r u (execution_finished _) k v = tt
  Has-IsKnown r u (execution_finished_with_appstate _ _) k v = tt
  Has-IsKnown r u (connected_tx _) k v = tt
  Has-IsKnown r u (connected_rx _) k v = tt
  Has-IsKnown r u (disconnected_tx _) k v = tt
  Has-IsKnown r u (disconnected_rx _) k v = tt

  -- What is known stays known, every request is, and the consensus messages are queued.
  abbrev pub Keeps :
      Replica S O R → List (Incoming S O P) → Replica S O R × List (Effect S O P) → Type 0
  Keeps r ms u =
      ((d : Digest) → IsKnown r d → IsKnown u.0 d)
      × All (Has u.0) ms
      × (u.0.consensus.tbo ≡ queue_all ms r.consensus.tbo)

module _ {S O : Type 0} (P : Type 0) {R : OrderedMap (StoredRequest O)} (H : Hash) (now : ℕ) where
  request_received-IsKnown :
      (r : Replica S O R) (h : Header) (m : RequestMessage O) (d : Digest)
      → let u : Replica S O R × List (Effect S O P) = request_received H now r h m in
        (has_request u.0.log d ≡ (unique_digest H h == d || has_request r.log d))
        × (contains_key d u.0.synchronizer.watching
            ≡ (unique_digest H h == d || contains_key d r.synchronizer.watching))
  unfolding request_received contains_key
  request_received-IsKnown r h m d =
      let e = unique_digest H h in
      let w = watching-watch_request now e r.synchronizer in
      (
        rw
            (
              has_request-find (insert_request H r.log h m) d,
              find_request-insert_request H r.log h m d,
              has_request-find r.log d,
            )
            (ground arith),
        rw (w) (ground (arith, get-insert d e (fresh now) r.synchronizer.watching)),
      )

  request_received-Keeps :
      (r : Replica S O R) (h : Header) (m : RequestMessage O)
      → Keeps P H r (system h (request m) ∷ []) (request_received H now r h m)
  unfolding request_received
  request_received-Keeps r h m =
      let e = unique_digest H h in
      let same = request_received-IsKnown r h m e in
      (
        λ d (k, w).
            let known = request_received-IsKnown r h m d in
            (ground (arith, known.0, k), ground (arith, known.1, w)),
        ((ground (arith, same.0), ground (arith, same.1)), tt),
        refl,
      )

  stays :
      (r : Replica S O R) (m : Incoming S O P)
      → Has P H r m
      → queue_all (m ∷ []) r.consensus.tbo ≡ r.consensus.tbo
      → Okay (Keeps P H r (m ∷ [])) (ok (r, []))
  stays r m v q = ok-Okay (Keeps P H r (m ∷ [])) _ ((λ d k. k), (v, tt), sym q)

  rogue_system-Keeps :
      (r : Replica S O R) (h : Header) (m : SystemMessage S O P)
      → Okay (Keeps P H r (system h m ∷ [])) (rogue_system H now r h m)
  unfolding rogue_system
  rogue_system-Keeps r h (request m) =
      ok-Okay (Keeps P H r (system h (request m) ∷ [])) _ (request_received-Keeps r h m)
  rogue_system-Keeps r h (consensus m) =
      ok-Okay (Keeps P H r (system h (consensus m) ∷ [])) _ ((λ d k. k), (tt, tt), refl)
  rogue_system-Keeps r h (reply _) = λ x e. cc
  rogue_system-Keeps r h (cst _) = λ x e. cc
  rogue_system-Keeps r h (view_change_msg _) = λ x e. cc
  rogue_system-Keeps r h (forwarded_requests _) = λ x e. cc

  rogue_received-Keeps :
      (r : Replica S O R) (m : Incoming S O P)
      → Okay (Keeps P H r (m ∷ [])) (rogue_received H now r m)
  unfolding rogue_received
  rogue_received-Keeps r (system h m) = rogue_system-Keeps r h m
  rogue_received-Keeps r (timeout x) = stays r (timeout x) tt refl
  rogue_received-Keeps r (execution_finished x) = stays r (execution_finished x) tt refl
  rogue_received-Keeps r (execution_finished_with_appstate x y) =
      stays r (execution_finished_with_appstate x y) tt refl
  rogue_received-Keeps r (connected_tx x) = stays r (connected_tx x) tt refl
  rogue_received-Keeps r (connected_rx x) = stays r (connected_rx x) tt refl
  rogue_received-Keeps r (disconnected_tx x) = stays r (disconnected_tx x) tt refl
  rogue_received-Keeps r (disconnected_rx x) = stays r (disconnected_rx x) tt refl

  Keeps-cons :
      (r : Replica S O R) (m : Incoming S O P) (ms : List (Incoming S O P))
      (u w : Replica S O R × List (Effect S O P))
      → Keeps P H r (m ∷ []) u
      → Keeps P H u.0 ms w
      → Keeps P H r (m ∷ ms) w
  Keeps-cons r m ms u w (k, (v, _), q) (k', vs, q') =
      (λ d x. k' d (k d x), (Has-IsKnown P H u.0 w.0 m k' v, vs), q' ∙ ap (queue_all ms) q)

  pub all_received-Keeps :
      (r : Replica S O R) (ms : List (Incoming S O P))
      → Okay (Keeps P H r ms) (all_received H now r ms)
  unfolding all_received
  all_received-Keeps r [] = ok-Okay (Keeps P H r []) _ ((λ d k. k), tt, refl)
  all_received-Keeps r (m ∷ ms) =
      >>=-Okay (Keeps P H r (m ∷ ms)) (rogue_received H now r m) _ (λ first e.
        >>=-Okay (Keeps P H r (m ∷ ms)) (all_received H now first.0 ms) _ (λ rest f.
          ok-Okay (Keeps P H r (m ∷ ms)) _ (
            Keeps-cons r m ms first (rest.0, first.1 ++ rest.1) (rogue_received-Keeps r m first e)
              (all_received-Keeps first.0 ms rest f))))
