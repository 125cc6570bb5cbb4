-- ===== src/Sync/Predicates/Bound.antt =====
-- When the collects bind a value, whatever the order of the hash sets (bft/sync/mod.rs).
use bafomet.Base.{
  ℕ, ◌<◌, Bool, true, false, ◌||◌, ◌==◌, Bool-cases, inl, inr, Option, none, some, Option-cases,
  List, [], ◌∷◌, ◌++◌, ◌≡◌, ◌⊎◌, refl, subst, arith,
}
use bafomet.Ordering.SeqNo.{SeqNo}
use bafomet.Message.{Digest}
use bafomet.Core.View.{ViewInfo}
use bafomet.Log.Types.{ViewDecisionPair, CollectData}
use bafomet.Sync.Types.{Sound, unbound, bound}
use bafomet.Sync.Predicates.{
  present, wrote, any_wrote, quorum_highest, certified, sum_certified, certified_value, binds,
  member, insert_new, add_pairs, written_view, candidates, find_value, find_bound, is_unbound,
  sound,
}

member-append : (x y : ℕ) (ys : List ℕ) → member x (ys ++ y ∷ []) ≡ (y == x || member x ys)
member-append x y [] = ground arith
member-append x y (z ∷ ys) = ground (arith, member-append x y ys)

member-insert_new : (x y : ℕ) (ys : List ℕ) → member x (insert_new y ys) ≡ (y == x || member x ys)
unfolding insert_new
member-insert_new x y ys = elim (Bool-cases (member y ys)) [
  | inl e ↦ elim (Bool-cases (y == x)) [
    | inl f ↦
        let same : y ≡ x = ground (arith, f) in rw (e, f) (subst (λ z. member z ys ≡ true) same e)
    | inr f ↦ rw (e, f) refl
  ]
  | inr e ↦ rw e (member-append x y ys)
]

-- The view and the value were put among the candidates.
abbrev pub names_view : SeqNo → List ViewDecisionPair → Bool
names_view ts [] = false
names_view ts (p ∷ ps) = p.view == ts || names_view ts ps

abbrev pub names_value : Digest → List ViewDecisionPair → Bool
names_value v [] = false
names_value v (p ∷ ps) = p.value == v || names_value v ps

add_pairs-views :
    (ps : List ViewDecisionPair) (a : List SeqNo × List Digest) (ts : SeqNo)
    → member ts a.0 ≡ true
    → member ts (add_pairs ps a).0 ≡ true
unfolding add_pairs
add_pairs-views [] (xs, ys) ts h = h
add_pairs-views (p ∷ ps) (xs, ys) ts h =
    add_pairs-views ps (insert_new p.view xs, insert_new p.value ys) ts
      (ground (arith, member-insert_new ts p.view xs, h))

add_pairs-values :
    (ps : List ViewDecisionPair) (a : List SeqNo × List Digest) (v : Digest)
    → (names_value v ps || member v a.1) ≡ true
    → member v (add_pairs ps a).1 ≡ true
unfolding add_pairs
add_pairs-values [] (xs, ys) v h = ground (arith, h)
add_pairs-values (p ∷ ps) (xs, ys) v h =
    add_pairs-values ps (insert_new p.view xs, insert_new p.value ys) v
      (ground (arith, member-insert_new v p.value ys, h))

wrote-view :
    (ts : SeqNo) (v : Digest) (c : CollectData)
    → wrote ts v c ≡ true
    → written_view c.incomplete_proof.quorum_writes ≡ ts
unfolding wrote written_view
wrote-view ts v c h = elim (Option-cases c.incomplete_proof.quorum_writes) [
  | inl e ↦ ground (arith, e, h)
  | inr (p, e) ↦ ground (arith, e, h)
]

candidates-views :
    (cs : List (Option CollectData)) (a : List SeqNo × List Digest) (ts : SeqNo) (v : Digest)
    → (member ts a.0 || any_wrote ts v (present cs)) ≡ true
    → member ts (candidates cs a).0 ≡ true
unfolding candidates any_wrote
candidates-views [] (xs, ys) ts v h = ground (arith, h)
candidates-views (none ∷ cs) (xs, ys) ts v h =
    candidates-views cs (insert_new 0 xs, ys) ts v (ground (arith, member-insert_new ts 0 xs, h))
candidates-views (some c ∷ cs) (xs, ys) ts v h =
    let first = insert_new (written_view c.incomplete_proof.quorum_writes) xs in
    let next = add_pairs c.incomplete_proof.write_set (first, ys) in
    let inserted = member-insert_new ts (written_view c.incomplete_proof.quorum_writes) xs in
    candidates-views cs next ts v (elim (Bool-cases (any_wrote ts v (present cs))) [
      | inl later ↦ ground (arith, later)
      | inr now ↦
          let here : member ts first ≡ true = elim (Bool-cases (wrote ts v c)) [
            | inl e ↦ ground (arith, inserted, wrote-view ts v c e)
            | inr e ↦ ground (arith, inserted, h, now, e)
          ] in
          ground (arith, add_pairs-views c.incomplete_proof.write_set (first, ys) ts here)
    ])

certified-named :
    (ts : SeqNo) (v : Digest) (ps : List ViewDecisionPair)
    → 0 < certified ts v ps
    → names_value v ps ≡ true
unfolding certified
certified-named ts v [] h = absurd (omega (arith, h))
certified-named ts v (p ∷ ps) h = ground (arith, h, certified-named ts v ps)

candidates-values :
    (cs : List (Option CollectData)) (a : List SeqNo × List Digest) (ts : SeqNo) (v : Digest)
    → (member v a.1 ≡ true) ⊎ (0 < sum_certified ts v (present cs))
    → member v (candidates cs a).1 ≡ true
unfolding candidates sum_certified
candidates-values [] (xs, ys) ts v (inl h) = h
candidates-values [] (xs, ys) ts v (inr h) = absurd (omega (arith, h))
candidates-values (none ∷ cs) (xs, ys) ts v h = candidates-values cs (insert_new 0 xs, ys) ts v h
candidates-values (some c ∷ cs) (xs, ys) ts v h =
    let ws = c.incomplete_proof.write_set in
    let first = insert_new (written_view c.incomplete_proof.quorum_writes) xs in
    candidates-values cs (add_pairs ws (first, ys)) ts v
      (elim (Bool-cases (names_value v ws || member v ys)) [
        | inl e ↦ inl (add_pairs-values ws (first, ys) v e)
        | inr e ↦ inr (ground (arith, certified-named ts v ws, h, e))
      ])

-- What the two loops find binds.
find_value-binds :
    (view : ViewInfo) (cs : List (Option CollectData)) (ts : SeqNo) (vs : List Digest) (v : Digest)
    → find_value view cs ts vs ≡ some v
    → binds view ts v cs ≡ true
unfolding find_value
find_value-binds view cs ts [] v e = cc
find_value-binds view cs ts (w ∷ vs) v e = elim (Bool-cases (binds view ts w cs)) [
  | inl b ↦ let same : w ≡ v = ground (arith, e, b) in subst (λ u. binds view ts u cs ≡ true) same b
  | inr b ↦ find_value-binds view cs ts vs v (ground (arith, e, b))
]

find_bound-binds :
    (view : ViewInfo) (cs : List (Option CollectData)) (ts : List SeqNo) (vs : List Digest)
    (v : Digest)
    → find_bound view cs ts vs ≡ some v
    → (t : SeqNo) × (binds view t v cs ≡ true)
unfolding find_bound
find_bound-binds view cs [] vs v e = cc
find_bound-binds view cs (t ∷ ts) vs v e = elim (Option-cases (find_value view cs t vs)) [
  | inl f ↦ find_bound-binds view cs ts vs v (ground (arith, e, f))
  | inr (w, f) ↦ (t, find_value-binds view cs t vs v (ground (arith, e, f)))
]

-- They miss nothing among the candidates.
find_value-none :
    (view : ViewInfo) (cs : List (Option CollectData)) (ts : SeqNo) (vs : List Digest) (v : Digest)
    → find_value view cs ts vs ≡ none
    → member v vs ≡ true
    → binds view ts v cs ≡ false
unfolding find_value
find_value-none view cs ts [] v e h = cc
find_value-none view cs ts (w ∷ vs) v e h = elim (Bool-cases (w == v)) [
  | inl same ↦
      let equal : w ≡ v = ground (arith, same) in
      subst (λ u. binds view ts u cs ≡ false) equal (ground (arith, e))
  | inr other ↦ find_value-none view cs ts vs v (ground (arith, e)) (ground (arith, h, other))
]

find_bound-none :
    (view : ViewInfo) (cs : List (Option CollectData)) (ts : List SeqNo) (vs : List Digest)
    (t : SeqNo) (v : Digest)
    → find_bound view cs ts vs ≡ none
    → member t ts ≡ true
    → member v vs ≡ true
    → binds view t v cs ≡ false
unfolding find_bound
find_bound-none view cs [] vs t v e h k = cc
find_bound-none view cs (u ∷ ts) vs t v e h k = elim (Option-cases (find_value view cs u vs)) [
  | inl f ↦ elim (Bool-cases (u == t)) [
    | inl same ↦
        let equal : u ≡ t = ground (arith, same) in
        subst (λ w. binds view w v cs ≡ false) equal (find_value-none view cs u vs v f k)
    | inr other ↦
        find_bound-none view cs ts vs t v (ground (arith, e, f)) (ground (arith, h, other)) k
  ]
  | inr (w, f) ↦ absurd (ground (arith, e, f))
]

-- What binds is among the candidates.
binds-wrote :
    (view : ViewInfo) (cs : List (Option CollectData)) (ts : SeqNo) (v : Digest)
    → binds view ts v cs ≡ true
    → (any_wrote ts v (present cs) ≡ true) × (0 < sum_certified ts v (present cs))
unfolding binds quorum_highest certified_value
binds-wrote view cs ts v e = ground (arith, e)

-- What `sound` must say: a value that some view binds, or, only if no view binds any value, whether
-- the collects are unbound.
abbrev pub IsBinding : ViewInfo → List (Option CollectData) → Sound → Type 0
IsBinding view cs (bound v) = (ts : SeqNo) × (binds view ts v cs ≡ true)
IsBinding view cs (unbound b) =
    ((ts : SeqNo) (v : Digest) → binds view ts v cs ≡ false) × (b ≡ is_unbound view cs)

-- The value that `sound` finds is bound by the collects in some view, and it finds none only if the
-- collects bind no value at all in any view, although it tries only the views and values that they
-- name.
pub sound-IsBinding :
    (view : ViewInfo) (cs : List (Option CollectData)) → IsBinding view cs (sound view cs)
unfolding sound
sound-IsBinding view cs =
    go (find_bound view cs (candidates cs ([], [])).0 (candidates cs ([], [])).1) refl
  where
    go :
        (o : Option Digest)
        → find_bound view cs (candidates cs ([], [])).0 (candidates cs ([], [])).1 ≡ o
        → IsBinding view cs (elim o [ some v ↦ bound v | none ↦ unbound (is_unbound view cs) ])
    go (some v) e = find_bound-binds view cs _ _ v e
    go none e = (
      λ ts v. elim (Bool-cases (binds view ts v cs)) [
        | inl b ↦
            let parts = binds-wrote view cs ts v b in
            find_bound-none view cs (candidates cs ([], [])).0 (candidates cs ([], [])).1 ts v e
              (candidates-views cs ([], []) ts v (ground (arith, parts.0)))
              (candidates-values cs ([], []) ts v (inr parts.1))
        | inr b ↦ b
      ],
      refl,
    )
