-- ===== src/Sync/Process/Phases/Gathered.antt =====
-- Where a STOP-DATA message leads, and with it every message (bft/sync/mod.rs).
use bafomet.Base.{
  ℕ, ◌+◌, not, ◌&&◌, ◌==◌, if◌then◌else◌, Bool-cases, inl, inr, Option, none, some, subst, sym,
  Okay, ok-Okay, ◌≡◌, refl, contains_key,
}
use bafomet.Collections.{OrderedMap}
use bafomet.Crypto.{Hash}
use bafomet.Message.{NodeId, Header}
use bafomet.Message.System.{ViewChangeMessage, ViewChangeMessageKind, stop, stop_data, sync}
use bafomet.Message.Wire.{Signing}
use bafomet.Core.Params.{quorum}
use bafomet.Core.View.{ViewInfo, peek, leader}
use bafomet.Log.Store.{Log}
use bafomet.Log.Types.{CollectData}
use bafomet.Consensus.State.{Consensus}
use bafomet.Sync.Types.{
  view_of, kind_of, ProtoPhase, init, stopping, stopping2, stopping_data, syncing, syncing_state,
  StoredRequest, Synchronizer,
}
use bafomet.Sync.Tbo
use bafomet.Sync.Finalize.{Node, Processed}
use bafomet.Sync.Process.{
  queue_stop_data, queue_any, process_stopping, count_data, process_stopping_data, process_syncing,
  process_phase, process_message,
}
use bafomet.Sync.Process.Phases.Exact.{after_stop, Reaches, process_message-Reaches}

-- The view and the phase after one more STOP-DATA message is counted; `none` at a quorum, where the
-- collects decide.
abbrev pub counted_data : ViewInfo → ProtoPhase → Option (ViewInfo × ProtoPhase)
counted_data view (stopping_data i) =
    if i + 1 == quorum view.params then none else some (view, stopping_data (i + 1))
counted_data view init = some (view, init)
counted_data view (stopping i) = some (view, stopping i)
counted_data view (stopping2 i) = some (view, stopping2 i)
counted_data view syncing = some (view, syncing)
counted_data view syncing_state = some (view, syncing_state)

-- It is counted by the leader if it is for its view and the first one of its sender.
abbrev pub after_data :
    {O : Type 0}
    → NodeId
    → Synchronizer O
    → Header
    → ViewChangeMessage O
    → Option (ViewInfo × ProtoPhase)
after_data id s h m =
    if view_of m == s.tbo.view.seq
      && (leader s.tbo.view == id && not (contains_key h.from s.collects))
    then counted_data s.tbo.view s.phase
    else some (s.tbo.view, s.phase)

module _ {S O : Type 0} {R : OrderedMap (StoredRequest O)} where
  -- What is known of the view and the phase is so.
  abbrev pub Meets : Option (ViewInfo × ProtoPhase) → Processed S O R → Type 0
  Meets none r = Unit
  Meets (some e) r = Reaches e r

  -- A STOP message leads where `after_stop` says, and a STOP-DATA message where `after_data` does.
  abbrev pub IsExact :
      NodeId
      → Synchronizer O
      → Header
      → ViewChangeMessage O
      → ViewChangeMessageKind O
      → Processed S O R
      → Type 0
  IsExact id s h m (stop _) r = Reaches (after_stop id s h m) r
  IsExact id s h m (stop_data _) r = Meets (after_data id s h m) r
  IsExact id s h m (sync _ _) r = Unit

  -- Outside the phase that counts STOP-DATA messages.
  unmoved :
      (id : NodeId) (p : ProtoPhase) (s : Synchronizer O) (h : Header) (m : ViewChangeMessage O)
      (r : Processed S O R)
      → s.phase ≡ p
      → counted_data s.tbo.view p ≡ some (s.tbo.view, p)
      → Reaches (s.tbo.view, s.phase) r
      → Meets (after_data id s h m) r
  unmoved id p s h m r e q v =
      elim (Bool-cases (
        view_of m == s.tbo.view.seq
        && (leader s.tbo.view == id && not (contains_key h.from s.collects)))) [
          | inl b ↦ rw (b, e, q) (subst (λ x. Reaches (s.tbo.view, x) r) e v)
          | inr b ↦ rw b v
        ]

module _ {S O : Type 0} {R : OrderedMap (StoredRequest O)} (H : Hash) (G : Signing) (node : Node G)
    (now : ℕ) where
  count_data-Meets :
      (i : ℕ) (s : Synchronizer O) (c : Consensus) (l : Log S O R) (h : Header)
      (m : ViewChangeMessage O)
      → Okay
          (Meets (counted_data s.tbo.view (stopping_data i)))
          (count_data H G node now i s c l h m)
  unfolding count_data
  count_data-Meets i s c l h m = elim (Bool-cases (i + 1 == quorum s.tbo.view.params)) [
    | inl e ↦ rw (e) (λ r _. tt)
    | inr e ↦ rw (e, count_data) (ok-Okay (Meets (some (s.tbo.view, stopping_data (i + 1)))) _ refl)
  ]

  process_stopping_data-Meets :
      (i : ℕ) (s : Synchronizer O) (c : Consensus) (l : Log S O R) (h : Header)
      (m : ViewChangeMessage O) (collect : CollectData)
      → s.phase ≡ stopping_data i
      → Okay
          (Meets (after_data node.id s h m))
          (process_stopping_data H G node now i s c l h m (stop_data collect))
  unfolding process_stopping_data queue_stop_data Tbo.queue_stop_data
  process_stopping_data-Meets i s c l h m collect p =
      let keep = some (s.tbo.view, s.phase) in
      elim (Bool-cases (view_of m == s.tbo.view.seq)) [
        | inr e ↦ elim (Bool-cases (leader (peek s.tbo.view (view_of m)) == node.id)) [
          | inl f ↦ rw (e, f, process_stopping_data) (ok-Okay (Meets keep) _ refl)
          | inr f ↦ rw (e, f, process_stopping_data) (ok-Okay (Meets keep) _ refl)
        ]
        | inl e ↦ elim (Bool-cases (leader s.tbo.view == node.id)) [
          | inr f ↦ rw (e, f, process_stopping_data) (ok-Okay (Meets keep) _ refl)
          | inl f ↦ elim (Bool-cases (contains_key h.from s.collects)) [
            | inl g ↦ rw (e, f, g, process_stopping_data) (ok-Okay (Meets keep) _ refl)
            | inr g ↦
                rw (e, f, g, process_stopping_data)
                  (subst
                    (λ x.
                      Okay (Meets (counted_data s.tbo.view x))
                        (count_data H G node now i s c l h m))
                    (sym p) (count_data-Meets i s c l h m))
          ]
        ]
      ]

  process_phase-Meets :
      (p : ProtoPhase) (s : Synchronizer O) (c : Consensus) (l : Log S O R) (h : Header)
      (m : ViewChangeMessage O) (collect : CollectData)
      → s.phase ≡ p
      → kind_of m ≡ stop_data collect
      → Okay (Meets (after_data node.id s h m)) (process_phase H G node now p s c l h m)
  unfolding process_phase queue_any queue_stop_data Tbo.queue_stop_data process_stopping
      process_syncing
  process_phase-Meets init s c l h m collect p k =
      rw (process_phase, k)
        (ok-Okay (Meets (after_data node.id s h m)) _ (unmoved node.id init s h m _ p refl refl))
  process_phase-Meets (stopping i) s c l h m collect p k =
      rw (process_phase, k, process_stopping)
        (ok-Okay (Meets (after_data node.id s h m)) _
          (unmoved node.id (stopping i) s h m _ p refl refl))
  process_phase-Meets (stopping2 i) s c l h m collect p k =
      rw (process_phase, k, process_stopping)
        (ok-Okay (Meets (after_data node.id s h m)) _
          (unmoved node.id (stopping2 i) s h m _ p refl refl))
  process_phase-Meets (stopping_data i) s c l h m collect p k =
      rw (process_phase, k) (process_stopping_data-Meets i s c l h m collect p)
  process_phase-Meets syncing s c l h m collect p k =
      rw (process_phase, k, process_syncing)
        (ok-Okay (Meets (after_data node.id s h m)) _ (unmoved node.id syncing s h m _ p refl refl))
  process_phase-Meets syncing_state s c l h m collect p k = λ x e. cc

  pub process_message-IsExact :
      (s : Synchronizer O) (c : Consensus) (l : Log S O R) (h : Header) (m : ViewChangeMessage O)
      (k : ViewChangeMessageKind O)
      → kind_of m ≡ k
      → Okay (IsExact node.id s h m k) (process_message H G node now s c l h m)
  unfolding process_message
  process_message-IsExact s c l h m (stop requests) e =
      process_message-Reaches H G node now s c l h m requests e
  process_message-IsExact s c l h m (stop_data collect) e =
      process_phase-Meets s.phase s c l h m collect refl e
  process_message-IsExact s c l h m (sync _ _) e = λ r _. tt
