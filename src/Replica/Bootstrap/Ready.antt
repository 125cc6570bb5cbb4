-- ===== src/Replica/Bootstrap/Ready.antt =====
-- The state in which a replica starts (bft/core/server/mod.rs).
use bafomet.Base.{ℕ, List, [], ◌≡◌}
use bafomet.Collections.{OrderedMap}
use bafomet.Crypto.{Hash}
use bafomet.Ordering.SeqNo.{SeqNo}
use bafomet.Core.View as View
use bafomet.Log.Store as Store
use bafomet.Log.Store.Requests.{IsDisjoint}
use bafomet.Sync.Types.{StoredRequest, init}
use bafomet.Sync.Watch as Watch
use bafomet.Replica.Types.{normal_phase, Replica, Effect}
use bafomet.Consensus.Tbo as ConsensusTbo
use bafomet.Consensus.State as ConsensusState

-- In the normal phase and in no view change, with no votes for one, and no request both waiting and
-- being decided.
pub record IsReady {S O : Type 0} {R : OrderedMap (StoredRequest O)} (r : Replica S O R)
    : Type 0 where
  pub phase : r.phase ≡ normal_phase
  pub sync_phase : r.synchronizer.phase ≡ init
  pub stopped : r.synchronizer.stopped ≡ []
  pub collects : r.synchronizer.collects ≡ []
  pub disjoint : IsDisjoint r.log

module _ {S O : Type 0} (P : Type 0) {R : OrderedMap (StoredRequest O)} (H : Hash) (now : ℕ) where
  abbrev Ends : Replica S O R × List (Effect S O P) → Type 0
  Ends u = IsReady u.0
