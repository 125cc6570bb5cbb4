-- ===== src/Sync/Proofs/Highest.antt =====
-- What the highest proof is, and what the checks of signatures let through (bft/sync/mod.rs).
use bafomet.Base.{
  ℕ, zero, suc, ◌≤◌, Bool, true, false, ltb, Bool-cases, inl, inr, Option, none, some, Option-cases,
  List, [], ◌∷◌, length, select, replicate, All, ◌≡◌, ◌≢◌, ◌⊎◌, refl, sym, subst, arith,
}
use bafomet.Crypto.{Hash}
use bafomet.Ordering.SeqNo.{SeqNo, cmp, flip_sign}
use bafomet.Message.{NodeId, Header}
use bafomet.Message.Wire.{Signing, is_valid, from_parts}
use bafomet.Core.Params.{quorum}
use bafomet.Core.View.{ViewInfo}
use bafomet.Log.Types.{Proof}
use bafomet.Log.Decision.{Stored}
use bafomet.Sync.Types.{StoredChange}
use bafomet.Sync.Predicates.{collect_data}
use bafomet.Sync.Proofs.{last_proofs, highest, validate_signature, counts, is_proof, highest_proof}

abbrev pub seq_of : Proof → SeqNo
seq_of p = p.pre_prepare.message.seq

-- The instance of `q` is not after that of `p`, both read as an i32.
abbrev pub IsBelow : Proof → Proof → Type 0
IsBelow p q = flip_sign (seq_of q) ≤ flip_sign (seq_of p)

-- The proof stands in the list.
abbrev pub Stands : Proof → List Proof → Type 0
Stands p [] = ⊥
Stands p (q ∷ qs) = (p ≡ q) ⊎ Stands p qs

All-IsBelow :
    (p q : Proof) (ps : List Proof) → IsBelow p q → All (IsBelow q) ps → All (IsBelow p) ps
All-IsBelow p q [] h a = tt
All-IsBelow p q (r ∷ ps) h a = (omega (arith, h, a.0), All-IsBelow p q ps h a.1)

-- Whatever was selected stands in the list, and passed the test.
Stands-select :
    (t : Proof → Bool) (p : Proof) (ps : List Proof)
    → Stands p (select t ps)
    → Stands p ps × (t p ≡ true)
Stands-select t p [] h = elim h [ ]
Stands-select t p (q ∷ ps) h = elim (Bool-cases (t q)) [
  | inl e ↦ elim (rw e at h) [
    | inl same ↦ (inl same, subst (λ r. t r ≡ true) (sym same) e)
    | inr later ↦ let r = Stands-select t p ps later in (inr r.0, r.1)
  ]
  | inr e ↦ let r = Stands-select t p ps (rw e at h) in (inr r.0, r.1)
]

All-select :
    (t : Proof → Bool) (p : Proof) (ps : List Proof)
    → All (IsBelow p) (select t ps)
    → All (λ q. (t q ≡ false) ⊎ IsBelow p q) ps
All-select t p [] h = tt
All-select t p (q ∷ ps) h = elim (Bool-cases (t q)) [
  | inl e ↦ let h' = rw e at h in (inr h'.0, All-select t p ps h'.1)
  | inr e ↦ (inl e, All-select t p ps (rw e at h))
]

select-none : (t : Proof → Bool) (ps : List Proof) → select t ps ≡ [] → All (λ q. t q ≡ false) ps
select-none t [] e = tt
select-none t (q ∷ ps) e = elim (Bool-cases (t q)) [
  | inl f ↦ absurd (ground (arith, e, f))
  | inr f ↦ (f, select-none t ps (ground (arith, e, f)))
]

highest-none : (ps : List Proof) → highest ps ≡ none → ps ≡ []
unfolding highest
highest-none [] e = refl
highest-none (p ∷ ps) e = ground (arith, e)

highest-some :
    (ps : List Proof) (p : Proof) → highest ps ≡ some p → Stands p ps × All (IsBelow p) ps
unfolding highest cmp
highest-some [] p e = cc
highest-some (q ∷ ps) p e = elim (Option-cases (highest ps)) [
  | inl f ↦
      let same : q ≡ p = ground (arith, e, f) in
      let left : [] ≡ ps = sym (highest-none ps f) in
      subst (λ x. Stands x (q ∷ ps) × All (IsBelow x) (q ∷ ps)) same
        (inl refl, (omega arith, subst (All (IsBelow q)) left tt))
  | inr (r, f) ↦
      let ih = highest-some ps r f in
      elim (Bool-cases (ltb (flip_sign (seq_of r)) (flip_sign (seq_of q)))) [
        | inl above ↦
            let same : q ≡ p = ground (arith, e, f, above) in
            subst (λ x. Stands x (q ∷ ps) × All (IsBelow x) (q ∷ ps)) same
              (inl refl, (omega arith, All-IsBelow q r ps (ground (arith, above)) ih.1))
        | inr below ↦
            let same : r ≡ p = ground (arith, e, f, below) in
            subst (λ x. Stands x (q ∷ ps) × All (IsBelow x) (q ∷ ps)) same
              (inr ih.0, (ground (arith, below), ih.1))
      ]
]

length-select-replicate :
    (t : Stored → Bool) (n : ℕ) (m : Stored) → t m ≡ true → length (select t (replicate n m)) ≡ n
length-select-replicate t zero m e = refl
length-select-replicate t (suc n) m e = ground (arith, e, length-select-replicate t n m e)

module _ (H : Hash) (G : Signing) (get_public_key : NodeId → Option G.PublicKey) where
  abbrev pub proofs_of : {O : Type 0} → List (StoredChange O) → List Proof
  proofs_of collects = last_proofs (collect_data collects)

  -- What the highest proof must be: one of the proofs of the collects, with enough signed commits,
  -- and of an instance that is not before that of any other such proof; and none only if there is
  -- no such proof.
  abbrev pub IsHighest : ViewInfo → List Proof → Option Proof → Type 0
  IsHighest view ps none = All (λ q. is_proof H G get_public_key view q ≡ false) ps
  IsHighest view ps (some p) =
      Stands p ps
      × (is_proof H G get_public_key view p ≡ true)
      × All (λ q. (is_proof H G get_public_key view q ≡ false) ⊎ IsBelow p q) ps

  -- The highest proof is the newest of the proofs of the collects that have a quorum of signed
  -- commits for their proposal, and there is none only if no proof has.
  pub highest_proof-IsHighest :
      {O : Type 0} (view : ViewInfo) (collects : List (StoredChange O))
      → IsHighest view (proofs_of collects) (highest_proof H G get_public_key view collects)
  unfolding highest_proof
  highest_proof-IsHighest view collects = go (highest (select t ps)) refl
    where
      t : Proof → Bool
      t = is_proof H G get_public_key view

      ps : List Proof
      ps = last_proofs (collect_data collects)

      go : (o : Option Proof) → highest (select t ps) ≡ o → IsHighest view ps o
      go none e = select-none t ps (highest-none (select t ps) e)
      go (some p) e =
          let found = highest-some (select t ps) p e in
          let stands = Stands-select t p ps found.0 in
          (stands.0, stands.1, All-select t p ps found.1)

  -- A message whose header names a payload never passes the check of its signature, which is made
  -- with an empty payload.
  pub validate_signature_payload :
      (h : Header) → h.length ≢ 0 → validate_signature H G get_public_key h ≡ false
  unfolding validate_signature from_parts is_valid
  validate_signature_payload h n = ground (arith, n)

  -- One signed commit for the proposal makes a proof, if it is repeated as often as a quorum wants.
  pub is_proof_repeated :
      (view : ViewInfo) (p : Proof) (m : Stored)
      → counts H G get_public_key p.pre_prepare.header.digest m ≡ true
      → p.commits ≡ replicate (quorum view.params) m
      → is_proof H G get_public_key view p ≡ true
  unfolding is_proof
  is_proof_repeated view p m e f =
      let n =
        length-select-replicate (counts H G get_public_key p.pre_prepare.header.digest)
          (quorum view.params) m e in
      rw f (ground (arith, n))
