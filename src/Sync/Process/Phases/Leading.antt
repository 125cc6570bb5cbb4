-- ===== src/Sync/Process/Phases/Leading.antt =====
-- The moves that STOP-DATA messages make (bft/sync/mod.rs).
use bafomet.Base.{
  ℕ, ◌+◌, false, ◌==◌, Bool-cases, inl, inr, Okay, ok-Okay, >>=-Okay, [], length, ◌≡◌, refl, ◌∙◌,
  arith, contains_key, insert, length-insert,
}
use bafomet.Collections.{OrderedMap}
use bafomet.Crypto.{Hash}
use bafomet.Message.{Header}
use bafomet.Message.System.{ViewChangeMessage, ViewChangeMessageKind, stop, stop_data, sync}
use bafomet.Message.Wire.{Signing}
use bafomet.Core.Params.{quorum}
use bafomet.Core.View.{leader}
use bafomet.Log.Store.{Log}
use bafomet.Consensus.State.{Consensus}
use bafomet.Sync.Types.{
  StoredRequest, FinalizeState, view_of, ProtoPhase, init, stopping_data, syncing_state,
  Synchronizer,
}
use bafomet.Sync.Tbo
use bafomet.Sync.Finalize.{Node, Processed, finish_change}
use bafomet.Sync.Process.{queue_stop, queue_stop_data, queue_sync}
use bafomet.Sync.Process.Phases.{
  Moves, stay, gather, finish, fetch, Counts, Counts-cleared, Stepped, keeps, steps,
}
use bafomet.Base.{HashMap}
use bafomet.Core.View.{peek}
use bafomet.Log.Store.{view_change_propose}
use bafomet.Sync.Types.{StoredChange}
use bafomet.Sync.Predicates.{collect_data, normalized_collects, sound, sound_test}
use bafomet.Sync.Proofs.{highest_proof}
use bafomet.Sync.Finalize.Ended.{Ends, same, done, put_aside, finish_change-Finished}
use bafomet.Sync.Process.{values, next_cid, lead_change, count_data, process_stopping_data}

module _ {S O : Type 0} {R : OrderedMap (StoredRequest O)} (H : Hash) (G : Signing) (node : Node G)
    (now : ℕ) where
  -- The end of a view change, for the phase `p`.
  pub ended-Stepped :
      (p : ProtoPhase) (s : Synchronizer O) (r : Processed S O R)
      → s.phase ≡ p
      → r.sync.tbo.view ≡ s.tbo.view
      → Ends s.phase r.sync.phase
      → r.sync.stopped ≡ s.stopped
      → r.sync.collects ≡ []
      → (r.sync.phase ≡ init → Moves node.id s.tbo.view r.sync.tbo.view s.phase r.sync.phase)
      → (Counts p (length s.stopped) (length s.collects) → length s.stopped ≡ 0)
      → Stepped node.id s r
  ended-Stepped p s r e v (same q) a b m f =
      steps node.id s p p r e (q ∙ e) (stay v q) (λ h. rw (a, b) (Counts-cleared p _ _ h))
  ended-Stepped p s r e v (done q) a b m f =
      steps node.id s p init r e q (m q) (λ h. rw (a, b) (f h, refl))
  ended-Stepped p s r e v (put_aside t q) a b m f =
      steps node.id s p syncing_state r e q (fetch v t q) (λ h. rw (a, b) (f h, refl))

  lead_change-Stepped :
      (i : ℕ) (s : Synchronizer O) (collects : HashMap (StoredChange O)) (c : Consensus)
      (l : Log S O R)
      → s.phase ≡ stopping_data i
      → leader s.tbo.view ≡ node.id
      → i + 1 ≡ quorum s.tbo.view.params
      → Okay (Stepped node.id s) (lead_change H G node now (record s { collects = collects }) c l)
  unfolding lead_change
  lead_change-Stepped i s collects c l p le e =
      let s' : Synchronizer O = record s { collects = collects } in
      let view = s.tbo.view in
      let cs = values collects in
      let cid = next_cid (highest_proof H G node.get_public_key view cs) in
      let snd = sound view (normalized_collects cid (collect_data cs)) in
      let st : FinalizeState = record {
        curr_cid = cid;
        proposed = view_change_propose l;
        sound = snd;
      } in
      elim (Bool-cases (sound_test snd)) [
        | inr f ↦
            rw (f, lead_change)
              (ok-Okay (Stepped node.id s) _ (
                steps node.id s (stopping_data i) (stopping_data i) _ p p (stay refl refl)
                  (λ h. (h.0, ground arith))))
        | inl f ↦
            rw (f, lead_change)
              (>>=-Okay (Stepped node.id s) (finish_change H G node st s' c l) _ (λ r q.
                let d = finish_change-Finished H G node st s' c l r q in
                ok-Okay (Stepped node.id s) _ (
                  ended-Stepped (stopping_data i) s _ p d.view d.phase d.stopped d.collects
                    (finish i d.view p le e) (λ h. h.0))))
      ]

  count_data-Stepped :
      (i : ℕ) (s : Synchronizer O) (c : Consensus) (l : Log S O R) (h : Header)
      (m : ViewChangeMessage O)
      → s.phase ≡ stopping_data i
      → leader s.tbo.view ≡ node.id
      → contains_key h.from s.collects ≡ false
      → Okay (Stepped node.id s) (count_data H G node now i s c l h m)
  unfolding count_data
  count_data-Stepped i s c l h m p le fresh =
      let v : StoredChange O = record { header = h; message = m } in
      elim (Bool-cases (i + 1 == quorum s.tbo.view.params)) [
        | inl e ↦
            rw (e, count_data)
              (lead_change-Stepped i s (insert h.from v s.collects) c l p le (ground (arith, e)))
        | inr e ↦
            rw (e, count_data)
              (ok-Okay (Stepped node.id s) _ (
                steps node.id s (stopping_data i) (stopping_data (i + 1)) _ p refl
                  (gather i refl p le (ground (arith, e)) refl)
                  (λ g. (g.0, ground (arith, length-insert h.from v s.collects, fresh, g.1)))))
      ]

  pub process_stopping_data-Stepped :
      (i : ℕ) (s : Synchronizer O) (c : Consensus) (l : Log S O R) (h : Header)
      (m : ViewChangeMessage O) (k : ViewChangeMessageKind O)
      → s.phase ≡ stopping_data i
      → Okay (Stepped node.id s) (process_stopping_data H G node now i s c l h m k)
  unfolding process_stopping_data queue_stop queue_stop_data queue_sync Tbo.queue_stop
      Tbo.queue_stop_data Tbo.queue_sync
  process_stopping_data-Stepped i s c l h m (stop _) p =
      ok-Okay (Stepped node.id s) _ (keeps node.id s _ refl refl refl refl)
  process_stopping_data-Stepped i s c l h m (sync _ _) p =
      ok-Okay (Stepped node.id s) _ (keeps node.id s _ refl refl refl refl)
  process_stopping_data-Stepped i s c l h m (stop_data _) p =
      elim (Bool-cases (view_of m == s.tbo.view.seq)) [
        | inr e ↦ elim (Bool-cases (leader (peek s.tbo.view (view_of m)) == node.id)) [
          | inl f ↦
              rw (e, f, process_stopping_data)
                (ok-Okay (Stepped node.id s) _ (keeps node.id s _ refl refl refl refl))
          | inr f ↦
              rw (e, f, process_stopping_data)
                (ok-Okay (Stepped node.id s) _ (keeps node.id s _ refl refl refl refl))
        ]
        | inl e ↦ elim (Bool-cases (leader s.tbo.view == node.id)) [
          | inr f ↦
              rw (e, f, process_stopping_data)
                (ok-Okay (Stepped node.id s) _ (keeps node.id s _ refl refl refl refl))
          | inl f ↦ elim (Bool-cases (contains_key h.from s.collects)) [
            | inl g ↦
                rw (e, f, g, process_stopping_data)
                  (ok-Okay (Stepped node.id s) _ (keeps node.id s _ refl refl refl refl))
            | inr g ↦
                rw (e, f, g, process_stopping_data)
                  (count_data-Stepped i s c l h m p (ground (arith, f)) g)
          ]
        ]
      ]
