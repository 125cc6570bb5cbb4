-- ===== src/Sync/Proofs.antt =====
-- The checks of signed messages, and the highest proof of the collects (bft/sync/mod.rs). The keys
-- of the nodes, `get_public_key`, are a parameter.
pub mod Highest
mod Tests
use bafomet.Base.{
  ℕ, Bool, true, false, ◌&&◌, leb, if◌then◌else◌, Option, none, some, unwrap_or, Result, ok, err,
  panic, List, [], ◌∷◌, length, select, Ordering,
}
use bafomet.Crypto.{Hash}
use bafomet.Ordering.SeqNo.{SeqNo, cmp}
use bafomet.Message.{NodeId, Digest, Header, StoredMessage, has_proposed_digest}
use bafomet.Message.Wire.{Signing, is_valid, from_parts}
use bafomet.Core.Params.{quorum}
use bafomet.Core.View.{ViewInfo}
use bafomet.Log.Types.{Proof, CollectData}
use bafomet.Log.Decision.{Stored}
use bafomet.Sync.Types.{StoredChange}
use bafomet.Sync.Predicates.{collect_data}

-- `filter_map(|collect| collect.last_proof())`
unfoldable pub last_proofs : List CollectData → List Proof
last_proofs [] = []
last_proofs (c ∷ cs) = elim c.last_proof [ some p ↦ p ∷ last_proofs cs | none ↦ last_proofs cs ]

-- `max_by_key`, which gives the last of several maxima.
unfoldable pub highest : List Proof → Option Proof
highest [] = none
highest (p ∷ ps) = elim (highest ps) [
  | none ↦ some p
  | some q ↦ elim (cmp p.pre_prepare.message.seq q.pre_prepare.message.seq) [
    | Ordering.gt ↦ some p
    | _ ↦ some q
  ]
]

module _ (H : Hash) (G : Signing) (get_public_key : NodeId → Option G.PublicKey) where
  -- The message is put together with an empty payload.
  unfoldable pub validate_signature : Header → Bool
  validate_signature h = elim (from_parts H G h []) [
    | ok wm ↦ elim (get_public_key h.from) [ some k ↦ is_valid H G wm (some k) | none ↦ false ]
    | err _ ↦ false
    | panic ↦ false
  ]

  unfoldable pub signed_collects : {O : Type 0} → List (StoredChange O) → List (StoredChange O)
  signed_collects collects = select (λ c. validate_signature c.header) collects

  -- A `COMMIT` of the proof that counts.
  unfoldable pub counts : Digest → Stored → Bool
  counts digest m =
      unwrap_or (has_proposed_digest m.message digest) false && validate_signature m.header

  unfoldable pub is_proof : ViewInfo → Proof → Bool
  unfolding counts
  is_proof view p =
      leb (quorum view.params) (length (select (counts p.pre_prepare.header.digest) p.commits))

  unfoldable pub highest_proof : {O : Type 0} → ViewInfo → List (StoredChange O) → Option Proof
  highest_proof view collects =
      highest (select (is_proof view) (last_proofs (collect_data collects)))
