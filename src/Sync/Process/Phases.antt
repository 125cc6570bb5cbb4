-- ===== src/Sync/Process/Phases.antt =====
-- How the phase of the view change protocol moves on a message (bft/sync/mod.rs).
pub mod Exact
pub mod Gathered
pub mod Stopping
pub mod Leading
pub mod Syncing
use bafomet.Base.{
  ℕ, ◌+◌, ◌≤◌, ◌<◌, Bool, true, false, not, ltb, ◌==◌, if◌then◌else◌, Bool-cases, ==_iff, inl, inr,
  Option, none, some, Result, ok, err, panic, ◌>>=◌, Okay, ok-Okay, >>=-Okay, List, [], ◌∷◌, length,
  ◌≡◌, ◌≢◌, refl, ap, ◌∙◌, subst, arith, contains_key, insert, length-insert,
}
use bafomet.Collections.{OrderedMap}
use bafomet.Crypto.{Hash}
use bafomet.Message.{NodeId, Header, Digest}
use bafomet.Message.System.{ViewChangeMessage, ViewChangeMessageKind, stop, stop_data, sync}
use bafomet.Message.Wire.{Signing}
use bafomet.Core.Params.{quorum}
use bafomet.Core.View.{ViewInfo, next_view, leader}
use bafomet.Log.Store.{Log}
use bafomet.Consensus.State.{Consensus}
use bafomet.Sync.Types.{
  StoredRequest, FinalizeState, FinalizeStatus, no_value, run_cst, commit_value, view_of, kind_of,
  to_list, ProtoPhase, init, stopping, stopping2, stopping_data, syncing, syncing_state,
  Synchronizer,
}
use bafomet.Sync.Tbo
use bafomet.Log.Decision
use bafomet.Sync.Watch.{install_view, watch_all_requests}
use bafomet.Sync.Watch.Kept.{watch_all_requests-IsKept}
use bafomet.Sync.Stops.{add_stopped_requests}
use bafomet.Sync.Stops.Kept.{begin_view_change-Begun, add_stopped_requests-Begun}
use bafomet.Sync.Finalize.{Node, Processed, finish_change}
use bafomet.Ordering.SeqNo.{next}
use bafomet.Sync.Process.{
  change_view, count_stop, process_stopping, queue_stop, queue_stop_data, queue_sync,
}

-- The moves of the protocol: from the view `v` and the phase `p` to `v'` and `p'`.
pub data Moves (me : NodeId) (v v' : ViewInfo) (p p' : ProtoPhase) : Type 0 where
  stay : v' ≡ v → p' ≡ p → Moves me v v' p p'
  count :
      (i : ℕ)
      → v' ≡ v
      → p ≡ stopping i
      → i + 1 ≤ v.params.f
      → p' ≡ stopping (i + 1)
      → Moves me v v' p p'
  join :
      (i : ℕ)
      → v' ≡ v
      → p ≡ stopping i
      → v.params.f < i + 1
      → p' ≡ stopping2 (i + 1)
      → Moves me v v' p p'
  count_more :
      (i : ℕ)
      → v' ≡ v
      → p ≡ stopping2 i
      → i + 1 ≢ quorum v.params
      → p' ≡ stopping2 (i + 1)
      → Moves me v v' p p'
  follow :
      (i : ℕ)
      → v' ≡ next_view v
      → p ≡ stopping2 i
      → i + 1 ≡ quorum v.params
      → me ≢ leader v'
      → p' ≡ syncing
      → Moves me v v' p p'
  lead :
      (i : ℕ)
      → v' ≡ next_view v
      → p ≡ stopping2 i
      → i + 1 ≡ quorum v.params
      → me ≡ leader v'
      → p' ≡ stopping_data 0
      → Moves me v v' p p'
  gather :
      (i : ℕ)
      → v' ≡ v
      → p ≡ stopping_data i
      → leader v ≡ me
      → i + 1 ≢ quorum v.params
      → p' ≡ stopping_data (i + 1)
      → Moves me v v' p p'
  finish :
      (i : ℕ)
      → v' ≡ v
      → p ≡ stopping_data i
      → leader v ≡ me
      → i + 1 ≡ quorum v.params
      → p' ≡ init
      → Moves me v v' p p'
  synced : v' ≡ v → p ≡ syncing → p' ≡ init → Moves me v v' p p'
  fetch : v' ≡ v → p ≡ syncing → p' ≡ syncing_state → Moves me v v' p p'

-- As many votes are kept as the phase counts, or fewer.
abbrev pub Counts : ProtoPhase → ℕ → ℕ → Type 0
Counts init a b = (a ≡ 0) × (b ≡ 0)
Counts (stopping i) a b = (a ≡ i) × (b ≡ 0)
Counts (stopping2 i) a b = (a ≤ i) × (b ≡ 0)
Counts (stopping_data i) a b = (a ≡ 0) × (b ≤ i)
Counts syncing a b = (a ≡ 0) × (b ≡ 0)
Counts syncing_state a b = (a ≡ 0) × (b ≡ 0)

abbrev pub CountsVotes : {O : Type 0} → Synchronizer O → Type 0
CountsVotes s = Counts s.phase (length s.stopped) (length s.collects)

pub Counts-cleared : (p : ProtoPhase) (a b : ℕ) → Counts p a b → Counts p a 0
Counts-cleared init a b h = (h.0, refl)
Counts-cleared (stopping i) a b h = (h.0, refl)
Counts-cleared (stopping2 i) a b h = (h.0, refl)
Counts-cleared (stopping_data i) a b h = (h.0, ground arith)
Counts-cleared syncing a b h = (h.0, refl)
Counts-cleared syncing_state a b h = (h.0, refl)

module _ {S O : Type 0} {R : OrderedMap (StoredRequest O)} (me : NodeId) where
  pub record Stepped (s : Synchronizer O) (r : Processed S O R) : Type 0 where
    pub moves : Moves me s.tbo.view r.sync.tbo.view s.phase r.sync.phase
    pub counts : CountsVotes s → CountsVotes r.sync

  pub keeps :
      (s : Synchronizer O) (r : Processed S O R)
      → r.sync.tbo.view ≡ s.tbo.view
      → r.sync.phase ≡ s.phase
      → r.sync.stopped ≡ s.stopped
      → r.sync.collects ≡ s.collects
      → Stepped s r
  keeps s r v p a b = record { moves = stay v p; counts = λ h. rw (p, a, b) h }

  pub steps :
      (s : Synchronizer O) (p p' : ProtoPhase) (r : Processed S O R)
      → s.phase ≡ p
      → r.sync.phase ≡ p'
      → Moves me s.tbo.view r.sync.tbo.view s.phase r.sync.phase
      → (Counts p (length s.stopped) (length s.collects)
          → Counts p' (length r.sync.stopped) (length r.sync.collects))
      → Stepped s r
  steps s p p' r e e' m f = record {
    moves = m;
    counts = λ h. rw e' (f (subst (λ q. Counts q (length s.stopped) (length s.collects)) e h));
  }
