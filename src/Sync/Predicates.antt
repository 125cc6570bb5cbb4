-- ===== src/Sync/Predicates.antt =====
-- The predicates of Cachin's 'Yet Another Visit to Paxos' on the collects of a quorum
-- (bft/sync/mod.rs). A collect of another instance is `none`. A hash set is a list without
-- repetitions, in the order of insertion.
pub mod Bound
use bafomet.Base.{
  ℕ, ◌+◌, Bool, true, false, ◌&&◌, ◌||◌, ltb, leb, ◌==◌, if◌then◌else◌, Option, none, some, List,
  [], ◌∷◌, ◌++◌, length, select, Ordering,
}
use bafomet.Ordering.SeqNo.{SeqNo, cmp, ge_seq}
use bafomet.Message.{Digest}
use bafomet.Message.System.{ViewChangeMessage, ViewChangeMessageKind, stop, stop_data, sync}
use bafomet.Core.Params.{quorum}
use bafomet.Core.View.{ViewInfo}
use bafomet.Log.Types.{ViewDecisionPair, CollectData}
use bafomet.Sync.Types.{StoredChange, kind_of, Sound, unbound, bound}

-- `filter_map(Option::as_ref)`
abbrev pub present {ℓ} : {A : Type ℓ} → List (Option A) → List A
present [] = []
present (none ∷ xs) = present xs
present (some x ∷ xs) = x ∷ present xs

data_of : {O : Type 0} → ViewChangeMessageKind O → Option CollectData
data_of (stop_data c) = some c
data_of (stop _) = none
data_of (sync _ _) = none

-- `collect_data`
unfoldable pub collect_data : {O : Type 0} → List (StoredChange O) → List CollectData
unfolding data_of
collect_data [] = []
collect_data (c ∷ cs) = elim (data_of (kind_of c.message)) [
  | some d ↦ d ∷ collect_data cs
  | none ↦ collect_data cs
]

unfoldable pub normalized_collects : SeqNo → List CollectData → List (Option CollectData)
normalized_collects in_exec [] = []
normalized_collects in_exec (c ∷ cs) =
    (if c.incomplete_proof.in_exec == in_exec then some c else none)
    ∷ normalized_collects in_exec cs

-- `quorum_writes().map(..).unwrap_or(false)` with `*other_ts == ts && other_value == value`
unfoldable pub wrote : SeqNo → Digest → CollectData → Bool
wrote ts value c = elim c.incomplete_proof.quorum_writes [
  | some p ↦ p.view == ts && p.value == value
  | none ↦ false
]

-- The second test of `quorum_highest`.
unfoldable pub not_above : SeqNo → Digest → CollectData → Bool
not_above ts value c = elim c.incomplete_proof.quorum_writes [
  | some p ↦ elim (cmp p.view ts) [
    | Ordering.lt ↦ true
    | Ordering.eq ↦ p.value == value
    | Ordering.gt ↦ false
  ]
  | none ↦ false
]

any_wrote : SeqNo → Digest → List CollectData → Bool
any_wrote ts value [] = false
any_wrote ts value (c ∷ cs) = wrote ts value c || any_wrote ts value cs

unfoldable pub quorum_highest : ViewInfo → SeqNo → Digest → List (Option CollectData) → Bool
unfolding any_wrote
quorum_highest view ts value cs =
    any_wrote ts value (present cs)
    && leb (quorum view.params) (length (select (not_above ts value) (present cs)))

-- How many pairs of a write set are of `value`, and not of an earlier view than `ts`.
unfoldable pub certified : SeqNo → Digest → List ViewDecisionPair → ℕ
certified ts value pairs = length (select (λ p. ge_seq p.view ts && p.value == value) pairs)

sum_certified : SeqNo → Digest → List CollectData → ℕ
sum_certified ts value [] = 0
sum_certified ts value (c ∷ cs) =
    certified ts value c.incomplete_proof.write_set + sum_certified ts value cs

unfoldable pub certified_value : ViewInfo → SeqNo → Digest → List (Option CollectData) → Bool
unfolding sum_certified
certified_value view ts value cs = ltb view.params.f (sum_certified ts value (present cs))

unfoldable pub binds : ViewInfo → SeqNo → Digest → List (Option CollectData) → Bool
binds view ts value cs =
    if ltb (length cs) (quorum view.params)
    then false
    else (quorum_highest view ts value cs && certified_value view ts value cs)

-- A collect that says nothing of a view after the first.
unfoldable pub on_first_view : Option CollectData → Bool
on_first_view none = true
on_first_view (some c) = elim c.incomplete_proof.quorum_writes [
  | some p ↦ p.view == 0
  | none ↦ true
]

unfoldable pub is_unbound : ViewInfo → List (Option CollectData) → Bool
is_unbound view cs =
    if ltb (length cs) (quorum view.params)
    then false
    else leb (quorum view.params) (length (select on_first_view cs))

-- `HashSet::insert`
abbrev pub member : ℕ → List ℕ → Bool
member x [] = false
member x (y ∷ ys) = y == x || member x ys

unfoldable pub insert_new : ℕ → List ℕ → List ℕ
insert_new x xs = if member x xs then xs else xs ++ x ∷ []

add_pairs : List ViewDecisionPair → List SeqNo × List Digest → List SeqNo × List Digest
add_pairs [] (ts, values) = (ts, values)
add_pairs (p ∷ ps) (ts, values) = add_pairs ps (insert_new p.view ts, insert_new p.value values)

written_view : Option ViewDecisionPair → SeqNo
written_view none = 0
written_view (some p) = p.view

-- The views and values that the collects name.
unfoldable pub candidates :
    List (Option CollectData) → List SeqNo × List Digest → List SeqNo × List Digest
unfolding add_pairs written_view
candidates [] (ts, values) = (ts, values)
candidates (none ∷ cs) (ts, values) = candidates cs (insert_new 0 ts, values)
candidates (some c ∷ cs) (ts, values) = candidates cs (
    add_pairs c.incomplete_proof.write_set
      (insert_new (written_view c.incomplete_proof.quorum_writes) ts, values))

find_value : ViewInfo → List (Option CollectData) → SeqNo → List Digest → Option Digest
find_value view cs ts [] = none
find_value view cs ts (v ∷ vs) =
    let rest = find_value view cs ts vs in if binds view ts v cs then some v else rest

-- The two loops of `sound`.
unfoldable pub find_bound :
    ViewInfo → List (Option CollectData) → List SeqNo → List Digest → Option Digest
unfolding find_value
find_bound view cs [] values = none
find_bound view cs (t ∷ ts) values =
    let rest = find_bound view cs ts values in
    elim (find_value view cs t values) [ some v ↦ some v | none ↦ rest ]

unfoldable pub sound : ViewInfo → List (Option CollectData) → Sound
sound view cs =
    let c = candidates cs ([], []) in
    elim (find_bound view cs c.0 c.1) [ some v ↦ bound v | none ↦ unbound (is_unbound view cs) ]

-- `Sound::value` and `Sound::test`
abbrev pub sound_value : Sound → Option Digest
sound_value (bound d) = some d
sound_value (unbound _) = none

abbrev pub sound_test : Sound → Bool
sound_test (bound _) = true
sound_test (unbound b) = b
