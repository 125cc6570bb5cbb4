-- ===== src/Replica/Events/Timeouts.antt =====
-- What the timeout of client requests leads to (bft/core/server/mod.rs).
use bafomet.Base.{
  ℕ, Bool, true, false, is_empty, ok, ok-Okay, List, [], ◌∷◌, select, keys, ◌≡◌, refl, subst, sym,
  ◌∙◌,
}
use bafomet.Collections.{OrderedMap}
use bafomet.Crypto.{Hash}
use bafomet.Message.{Digest}
use bafomet.Ordering.SeqNo.{SeqNo, next}
use bafomet.Log.Store.{clone_requests}
use bafomet.Sync.Types.{StoredRequest, init, stopping2}
use bafomet.Sync.Watch.{client_requests_timed_out}
use bafomet.Sync.Watch.Timers.{is_due_once, client_requests_timed_out_current}
use bafomet.Sync.Stops.Kept.{begin_view_change_alone}
use bafomet.Replica.Types.{ReplicaPhase, sync_phase, Replica, Effect, client_requests}
use bafomet.Replica.Events.{timeout_received, requests_timed, stop_some}

module _ {S O : Type 0} {R : OrderedMap (StoredRequest O)} where
  -- The requests that timed out after they had been forwarded.
  abbrev pub late : ℕ → Replica S O R → List Digest
  late now r = keys (select (is_due_once r.synchronizer.timeout_dur now) r.synchronizer.watching)

  -- The replica goes on in the phase that it was in, or begins a view change.
  abbrev pub Begins : Bool → ReplicaPhase → Replica S O R → Type 0
  Begins true phase r = (r.phase ≡ phase) × (r.synchronizer.phase ≡ init)
  Begins false phase r = (r.phase ≡ sync_phase) × (r.synchronizer.phase ≡ stopping2 0)

module _ {S O : Type 0} (P : Type 0) {R : OrderedMap (StoredRequest O)} (H : Hash) (now : ℕ) where
  stop_some-Begins :
      (r : Replica S O R) (ds : List Digest)
      → r.synchronizer.phase ≡ init
      → let s : Replica S O R × List (Effect S O P) = stop_some H now r ds in
        Begins (is_empty ds) r.phase s.0
  unfolding stop_some
  stop_some-Begins r [] e = (refl, e)
  stop_some-Begins r (d ∷ ds) e =
      (refl, begin_view_change_alone H (clone_requests r.log (d ∷ ds)) r.synchronizer e)

module _ {S O P : Type 0} {R : OrderedMap (StoredRequest O)} (H : Hash) (now : ℕ) where
  -- When the timer of the client requests ends, a replica that is in no view change begins one
  -- exactly if some request timed out that had been forwarded before.
  pub timeout_received-Begins :
      (r : Replica S O R) (seq : SeqNo) (u : Replica S O R × List (Effect S O P))
      → r.synchronizer.phase ≡ init
      → r.synchronizer.watching_timeouts ≡ true
      → next seq ≡ r.synchronizer.timeout_seq
      → timeout_received H now r (client_requests seq) ≡ ok u
      → Begins (is_empty (late now r)) r.phase u.0
  unfolding timeout_received requests_timed
  timeout_received-Begins r seq u p w n e =
      let t = client_requests_timed_out now seq r.synchronizer in
      let c = client_requests_timed_out_current now seq r.synchronizer w n in
      let r' : Replica S O R = record r { synchronizer = t.1 } in
      let B : Replica S O R → Type 0 = Begins (is_empty (late now r)) r.phase in
      ok-Okay (λ u. B u.0) _
        (subst
          (λ status.
            let s : Replica S O R × List (Effect S O P) = requests_timed H now status r' in B s.0)
          (sym c.0) (stop_some-Begins P H now r' (late now r) (c.1 ∙ p)))
        u e
