-- ===== src/Sync/Process/Phases/Syncing.antt =====
-- The moves that SYNC messages make, and all the moves (bft/sync/mod.rs).
use bafomet.Base.{ℕ, ◌==◌, Bool-cases, inl, inr, ok, Okay, ok-Okay, List, ◌≡◌, refl}
use bafomet.Collections.{OrderedMap}
use bafomet.Crypto.{Hash}
use bafomet.Message.{Header, Digest}
use bafomet.Message.System.{ViewChangeMessage, ViewChangeMessageKind, stop, stop_data, sync}
use bafomet.Message.Wire.{Signing}
use bafomet.Core.View.{leader}
use bafomet.Log.Store.{Log}
use bafomet.Consensus.State.{Consensus}
use bafomet.Sync.Types.{
  StoredRequest, FinalizeState, view_of, kind_of, to_list, ProtoPhase, init, stopping, stopping2,
  stopping_data, syncing, syncing_state, Synchronizer,
}
use bafomet.Sync.Tbo
use bafomet.Sync.Finalize.{Node, Processed}
use bafomet.Sync.Process.{queue_stop, queue_stop_data, queue_sync}
use bafomet.Sync.Process.Phases.{synced, CountsVotes, Stepped, keeps}
use bafomet.Sync.Types.{StoredChange, idle}
use bafomet.Sync.Predicates.{collect_data, normalized_collects, sound, sound_test}
use bafomet.Sync.Proofs.{signed_collects, highest_proof}
use bafomet.Sync.Finalize.Ended.{finish_change-Finished}
use bafomet.Sync.Process.{
  only, next_cid, follow_change, process_syncing, process_phase, process_message, queue_any,
}
use bafomet.Sync.Process.Phases.Leading.{ended-Stepped, process_stopping_data-Stepped}
use bafomet.Sync.Process.Phases.Stopping.{process_stopping-Stepped, process_stopping2-Stepped}

module _ {S O : Type 0} {R : OrderedMap (StoredRequest O)} (H : Hash) (G : Signing) (node : Node G)
    (now : ℕ) where
  follow_change-Stepped :
      (proposed : List Digest) (cs : List (StoredChange O)) (s : Synchronizer O) (c : Consensus)
      (l : Log S O R)
      → s.phase ≡ syncing
      → Okay (Stepped node.id s) (follow_change H G node now proposed cs s c l)
  unfolding follow_change
  follow_change-Stepped proposed cs s c l p =
      let view = s.tbo.view in
      let signed = signed_collects H G node.get_public_key cs in
      let cid = next_cid (highest_proof H G node.get_public_key view signed) in
      let snd = sound view (normalized_collects cid (collect_data signed)) in
      let st : FinalizeState = record { curr_cid = cid; proposed = proposed; sound = snd } in
      elim (Bool-cases (sound_test snd)) [
        | inr f ↦
            rw (f, follow_change)
              (ok-Okay (Stepped node.id s) _ (keeps node.id s _ refl refl refl refl))
        | inl f ↦
            rw (f, follow_change)
              (λ r q.
                let d = finish_change-Finished H G node st s c l r q in
                ended-Stepped H G node now syncing s r p d.view d.phase d.stopped d.collects
                  (synced d.view p) (λ h. h.0))
      ]

  process_syncing-Stepped :
      (s : Synchronizer O) (c : Consensus) (l : Log S O R) (h : Header) (m : ViewChangeMessage O)
      (k : ViewChangeMessageKind O)
      → s.phase ≡ syncing
      → Okay (Stepped node.id s) (process_syncing H G node now s c l h m k)
  unfolding process_syncing queue_stop queue_stop_data queue_sync Tbo.queue_stop Tbo.queue_stop_data
      Tbo.queue_sync
  process_syncing-Stepped s c l h m (stop _) p =
      ok-Okay (Stepped node.id s) _ (keeps node.id s _ refl refl refl refl)
  process_syncing-Stepped s c l h m (stop_data _) p =
      ok-Okay (Stepped node.id s) _ (keeps node.id s _ refl refl refl refl)
  process_syncing-Stepped s c l h m (sync proposed cs) p =
      elim (Bool-cases (view_of m == s.tbo.view.seq)) [
        | inr e ↦
            rw (e, process_syncing)
              (ok-Okay (Stepped node.id s) _ (keeps node.id s _ refl refl refl refl))
        | inl e ↦ elim (Bool-cases (h.from == leader s.tbo.view)) [
          | inr f ↦
              rw (e, f, process_syncing)
                (ok-Okay (Stepped node.id s) _ (keeps node.id s _ refl refl refl refl))
          | inl f ↦ rw (e, f, process_syncing) (follow_change-Stepped proposed (to_list cs) s c l p)
        ]
      ]

  process_init-Stepped :
      (s : Synchronizer O) (c : Consensus) (l : Log S O R) (h : Header) (m : ViewChangeMessage O)
      (k : ViewChangeMessageKind O)
      → Stepped node.id s (only H G node now idle (queue_any s h m k) c l)
  unfolding queue_any queue_stop queue_stop_data queue_sync Tbo.queue_stop Tbo.queue_stop_data
      Tbo.queue_sync
  process_init-Stepped s c l h m (stop _) = keeps node.id s _ refl refl refl refl
  process_init-Stepped s c l h m (stop_data _) = keeps node.id s _ refl refl refl refl
  process_init-Stepped s c l h m (sync _ _) = keeps node.id s _ refl refl refl refl

  process_phase-Stepped :
      (p : ProtoPhase) (s : Synchronizer O) (c : Consensus) (l : Log S O R) (h : Header)
      (m : ViewChangeMessage O)
      → s.phase ≡ p
      → Okay (Stepped node.id s) (process_phase H G node now p s c l h m)
  unfolding process_phase
  process_phase-Stepped init s c l h m p =
      ok-Okay (Stepped node.id s) _ (process_init-Stepped s c l h m (kind_of m))
  process_phase-Stepped (stopping i) s c l h m p =
      process_stopping-Stepped H G node now i s c l h m (kind_of m) p
  process_phase-Stepped (stopping2 i) s c l h m p =
      process_stopping2-Stepped H G node now i s c l h m (kind_of m) p
  process_phase-Stepped (stopping_data i) s c l h m p =
      process_stopping_data-Stepped H G node now i s c l h m (kind_of m) p
  process_phase-Stepped syncing s c l h m p = process_syncing-Stepped s c l h m (kind_of m) p
  process_phase-Stepped syncing_state s c l h m p = λ r e. cc

  -- A replica never keeps more votes than its phase counts, exactly as many before it joins the view
  -- change, and none of the kinds that its phase does not gather, and every message that is processed
  -- keeps it so.
  pub process_message-CountsVotes :
      (s : Synchronizer O) (c : Consensus) (l : Log S O R) (h : Header) (m : ViewChangeMessage O)
      (r : Processed S O R)
      → CountsVotes s
      → process_message H G node now s c l h m ≡ ok r
      → CountsVotes r.sync
  unfolding process_message
  process_message-CountsVotes s c l h m r v e =
      (process_phase-Stepped s.phase s c l h m refl r e).counts v
