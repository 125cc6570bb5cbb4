-- ===== src/Collections.antt =====
-- bft/collections/mod.rs: `OrderedMap` is the `LinkedHashMap` of another package, so it stands here
-- by its operations and the laws that its documentation gives. (`HashMap`, of the standard library,
-- is an association list: Base/Maps.)
use bafomet.Base.{
  ℕ, ◌==◌, if◌then◌else◌, Option, none, some, List, [], ◌∷◌, ◌≡◌, refl, HashMap, get, insert,
  remove, keys, get-insert, get-remove, arith,
}

-- A map from digests to `V` that remembers the order of insertion.
pub record OrderedMap (V : Type 0) : Type 1 where
  pub Map : Type 0
  pub empty : Map
  pub get : ℕ → Map → Option V
  pub insert : ℕ → V → Map → Map
  pub remove : ℕ → Map → Map
  pub pop_front : Map → Option (ℕ × V × Map)
  pub keys : Map → List ℕ
  pub get-empty : (j : ℕ) → get j empty ≡ none
  pub get-insert :
      (j k : ℕ) (v : V) (m : Map) → get j (insert k v m) ≡ (if k == j then some v else get j m)
  pub get-remove : (j k : ℕ) (m : Map) → get j (remove k m) ≡ (if k == j then none else get j m)
  pub get-pop_front :
      (m : Map) (k : ℕ) (v : V) (m' : Map)
      → pop_front m ≡ some (k, v, m')
      → (get k m ≡ some v) × ((j : ℕ) → get j m' ≡ (if k == j then none else get j m))

-- An association list meets the laws, the oldest entry first.
unfoldable pub pop_front_assoc {ℓ} : {V : Type ℓ} → HashMap V → Option (ℕ × V × HashMap V)
pop_front_assoc [] = none
pop_front_assoc ((k, v) ∷ m) = some (k, v, remove k m)

pub get-pop_front_assoc {ℓ} :
    {V : Type ℓ} (m : HashMap V) (k : ℕ) (v : V) (m' : HashMap V)
    → pop_front_assoc m ≡ some (k, v, m')
    → (get k m ≡ some v) × ((j : ℕ) → get j m' ≡ (if k == j then none else get j m))
unfolding pop_front_assoc get
get-pop_front_assoc [] k v m' e = absurd (cc e)
get-pop_front_assoc ((i, w) ∷ m) k v m' e = (ground arith, λ j. ground (arith, get-remove j i m))

-- The interface by association lists, for tests.
unfoldable pub assoc_map : (V : Type 0) → OrderedMap V
unfolding pop_front_assoc get insert remove keys
assoc_map V = record {
  Map = HashMap V;
  empty = [];
  get = get;
  insert = insert;
  remove = remove;
  pop_front = pop_front_assoc;
  keys = keys;
  get-empty = λ j. refl;
  get-insert = get-insert;
  get-remove = get-remove;
  get-pop_front = get-pop_front_assoc;
}
