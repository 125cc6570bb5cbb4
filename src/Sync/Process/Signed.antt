-- ===== src/Sync/Process/Signed.antt =====
-- A follower in a view change never gets past a SYNC message with real collects (bft/sync/mod.rs).
use bafomet.Base.{ℕ, false, none, ok, List, [], ◌∷◌, All, ◌≡◌, ◌≢◌, refl, arith}
use bafomet.Collections.{OrderedMap}
use bafomet.Crypto.{Hash}
use bafomet.Message.{Digest, Header}
use bafomet.Message.System.{ViewChangeMessage, sync, Collects}
use bafomet.Message.Wire.{Signing}
use bafomet.Core.View.{ViewInfo, leader}
use bafomet.Log.Store.{Log}
use bafomet.Consensus.State.{Consensus}
use bafomet.Sync.Types.{
  StoredRequest, StoredChange, view_of, kind_of, to_list, syncing, running, Synchronizer,
}
use bafomet.Sync.Predicates.{
  collect_data, normalized_collects, candidates, find_bound, is_unbound, sound, sound_test,
}
use bafomet.Sync.Proofs.{signed_collects, last_proofs, highest, highest_proof}
use bafomet.Sync.Proofs.Highest.{validate_signature_payload}
use bafomet.Sync.Finalize.{Node}
use bafomet.Sync.Process.{
  only, next_cid, follow_change, process_syncing, process_phase, process_message,
}

sound-empty : (view : ViewInfo) → sound_test (sound view []) ≡ false
unfolding sound candidates find_bound is_unbound
sound-empty view = ground arith

signed_collects-empty :
    {O : Type 0} (H : Hash) (G : Signing) (node : Node G) (cs : List (StoredChange O))
    → All (λ c. c.header.length ≢ 0) cs
    → signed_collects H G node.get_public_key cs ≡ []
unfolding signed_collects
signed_collects-empty H G node [] h = refl
signed_collects-empty H G node (c ∷ cs) h = ground (
  arith,
  validate_signature_payload H G node.get_public_key c.header h.0,
  signed_collects-empty H G node cs h.1,
)

highest_proof-empty :
    {O : Type 0} (H : Hash) (G : Signing) (node : Node G) (view : ViewInfo)
    (cs : List (StoredChange O))
    → cs ≡ []
    → highest_proof H G node.get_public_key view cs ≡ none
unfolding highest_proof last_proofs highest collect_data
highest_proof-empty H G node view [] e = refl
highest_proof-empty H G node view (c ∷ cs) e = ground (arith, e)

module _ {S O : Type 0} {R : OrderedMap (StoredRequest O)} (H : Hash) (G : Signing) (node : Node G)
    (now : ℕ) where
  follow_change-unsigned :
      (proposed : List Digest) (cs : List (StoredChange O)) (s : Synchronizer O) (c : Consensus)
      (l : Log S O R)
      → All (λ d. d.header.length ≢ 0) cs
      → follow_change H G node now proposed cs s c l ≡ ok (only H G node now running s c l)
  unfolding follow_change next_cid normalized_collects collect_data
  follow_change-unsigned proposed cs s c l h =
      rw
        (
          highest_proof-empty H G node s.tbo.view (signed_collects H G node.get_public_key cs)
              (signed_collects-empty H G node cs h),
          signed_collects-empty H G node cs h,
          sound-empty s.tbo.view,
        )
        refl

  -- A follower that waits for the SYNC message of the new leader drops it and stays as it is, if
  -- every collect in it has a payload, as every message has that was sent: none of their signatures
  -- passes the check.
  pub process_message_unsigned :
      (s : Synchronizer O) (c : Consensus) (l : Log S O R) (h : Header) (m : ViewChangeMessage O)
      (proposed : List Digest) (collects : Collects O)
      → s.phase ≡ syncing
      → kind_of m ≡ sync proposed collects
      → view_of m ≡ s.tbo.view.seq
      → h.from ≡ leader s.tbo.view
      → All (λ d. d.header.length ≢ 0) (to_list collects)
      → process_message H G node now s c l h m ≡ ok (only H G node now running s c l)
  unfolding process_message process_phase process_syncing
  process_message_unsigned s c l h m proposed collects p k v f a =
      ground (arith, p, k, v, f, follow_change-unsigned proposed (to_list collects) s c l a)
