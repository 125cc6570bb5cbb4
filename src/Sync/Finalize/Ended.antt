-- ===== src/Sync/Finalize/Ended.antt =====
-- What the end of a view change leaves of the state (bft/sync/mod.rs).
use bafomet.Base.{true, inl, inr, none, some, Okay, ok-Okay, >>=-Okay, [], ◌≡◌, ◌⊎◌, refl, arith}
use bafomet.Collections.{OrderedMap}
use bafomet.Crypto.{Hash}
use bafomet.Message.Wire.{Signing}
use bafomet.Core.View.{leader}
use bafomet.Log.Store.{Log}
use bafomet.Consensus.State.{Consensus}
use bafomet.Sync.Types.{
  StoredRequest, FinalizeState, FinalizeStatus, no_value, run_cst, commit_value, ProtoPhase, init,
  stopping, stopping2, stopping_data, syncing, syncing_state, Synchronizer,
}
use bafomet.Sync.Tbo
use bafomet.Sync.Predicates.{sound_value}
use bafomet.Log.Clear.{clear_last_occurrences}
use bafomet.Log.Store.{insert_consensus}
use bafomet.Consensus.State.{forge_propose}
use bafomet.Consensus.State
use bafomet.Message.Wire
use bafomet.Sync.Finalize.{
  is_syncing, Node, Processed, pre_finalize, proposal_or, finalize, finish_change,
}

-- How a phase ends.
pub data Ends (p p' : ProtoPhase) : Type 0 where
  same : p' ≡ p → Ends p p'
  done : p' ≡ init → Ends p p'
  put_aside : p ≡ syncing → p' ≡ syncing_state → Ends p p'

FinalizeStatus-cases :
    (x : FinalizeStatus)
    → (x ≡ no_value)
      ⊎ ((st : FinalizeState) × (x ≡ run_cst st))
      ⊎ ((st : FinalizeState) × (x ≡ commit_value st))
FinalizeStatus-cases no_value = inl refl
FinalizeStatus-cases (run_cst st) = inr (inl (st, refl))
FinalizeStatus-cases (commit_value st) = inr (inr (st, refl))

syncing-phase : (p : ProtoPhase) → is_syncing p ≡ true → p ≡ syncing
unfolding is_syncing
syncing-phase syncing e = refl
syncing-phase init e = cc
syncing-phase (stopping i) e = cc
syncing-phase (stopping2 i) e = cc
syncing-phase (stopping_data i) e = cc
syncing-phase syncing_state e = cc

module _ {S O : Type 0} {R : OrderedMap (StoredRequest O)} (H : Hash) (G : Signing)
    (node : Node G) where
  -- What the end of a view change leaves of the state.
  pub record Finished (s : Synchronizer O) (r : Processed S O R) : Type 0 where
    pub view : r.sync.tbo.view ≡ s.tbo.view
    pub phase : Ends s.phase r.sync.phase
    pub stopped : r.sync.stopped ≡ s.stopped
    pub collects : r.sync.collects ≡ []
    pub watching : r.sync.watching ≡ s.watching
    pub watching_timeouts : r.sync.watching_timeouts ≡ s.watching_timeouts

  pre_finalize-phase :
      (s : Synchronizer O) (l : Log S O R) (st st' : FinalizeState)
      → pre_finalize s l st ≡ run_cst st'
      → s.phase ≡ syncing
  unfolding pre_finalize is_syncing
  pre_finalize-phase s l st st' e = syncing-phase s.phase (ground (arith, e))

  ended :
      (s : Synchronizer O) (r : Processed S O R)
      → r.sync.tbo.view ≡ s.tbo.view
      → Ends s.phase r.sync.phase
      → r.sync.stopped ≡ s.stopped
      → r.sync.collects ≡ []
      → r.sync.watching ≡ s.watching
      → r.sync.watching_timeouts ≡ s.watching_timeouts
      → Finished s r
  ended s r v p d c w t = record {
    view = v;
    phase = p;
    stopped = d;
    collects = c;
    watching = w;
    watching_timeouts = t;
  }

  finalize-Finished :
      (st : FinalizeState) (s : Synchronizer O) (c : Consensus) (l : Log S O R)
      → Okay (Finished s) (finalize H G node st (record s { collects = [] }) c l)
  unfolding finalize Tbo.next_instance_queue
  finalize-Finished st s c l =
      >>=-Okay (Finished s) (clear_last_occurrences l.declog st.curr_cid (sound_value st.sound)) _
        (λ cleared _.
          let m = forge_propose c (proposal_or cleared.0 st.proposed) s.tbo.view in
          let d = node.serialize_digest m in
          >>=-Okay (Finished s)
            (Wire.new H G (leader s.tbo.view) node.id d.1 node.nonce (some d.0) none) _
            (λ wm _.
              let l' = insert_consensus (record l { declog = cleared.1 }) wm.header m in
              >>=-Okay (Finished s)
                (State.finalize_view_change node.id s.tbo.view c d.0 l'.declog.pre_prepares) _
                (λ r _. ok-Okay (Finished s) _ (ended s _ refl (done refl) refl refl refl refl))))

  pub finish_change-Finished :
      (st : FinalizeState) (s : Synchronizer O) (c : Consensus) (l : Log S O R)
      → Okay (Finished s) (finish_change H G node st s c l)
  unfolding finish_change
  finish_change-Finished st s c l = elim (FinalizeStatus-cases (pre_finalize s l st)) [
    | inl e ↦
        rw (e, finish_change)
          (ok-Okay (Finished s) _ (ended s _ refl (same refl) refl refl refl refl))
    | inr (inl (st', e)) ↦
        rw (e, finish_change)
          (ok-Okay (Finished s) _
            (ended s _ refl (put_aside (pre_finalize-phase s l st st' e) refl) refl refl refl refl))
    | inr (inr (st', e)) ↦ rw (e, finish_change) (finalize-Finished st' s c l)
  ]
