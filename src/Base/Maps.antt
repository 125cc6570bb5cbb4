-- ===== src/Base/Maps.antt =====
-- `std::collections::HashMap` with numbers for keys, as an association list: the order of the
-- list stands for the order of iteration, which `HashMap` leaves open.
use Prim.Native.Nat.{ℕ, ◌+◌}
use mathlib.Core.Path.{◌≡◌, refl}
use mathlib.Core.Bool.{Bool, true}
use mathlib.Core.List.{List, [], ◌∷◌, map}
use mathlib.Core.Option.{Option, none, some}
use native.Mathlib.Omega.{arith}
use bafomet.Base.Lists.{length, length-map, All, All-map}
use bafomet.Base.Bools.{◌==◌, if◌then◌else◌, is_some}

abbrev pub HashMap {ℓ} : Type ℓ → Type ℓ
HashMap V = List (ℕ × V)

module _ {ℓ} {V : Type ℓ} where
  unfoldable pub get : ℕ → HashMap V → Option V
  get k [] = none
  get k ((j, v) ∷ m) = if j == k then some v else get k m

  unfoldable pub insert : ℕ → V → HashMap V → HashMap V
  insert k v [] = (k, v) ∷ []
  insert k v ((j, w) ∷ m) = if j == k then (k, v) ∷ m else (j, w) ∷ insert k v m

  unfoldable pub remove : ℕ → HashMap V → HashMap V
  remove k [] = []
  remove k ((j, v) ∷ m) = if j == k then remove k m else (j, v) ∷ remove k m

  unfoldable pub contains_key : ℕ → HashMap V → Bool
  unfolding get
  contains_key k m = is_some (get k m)

  unfoldable pub keys : HashMap V → List ℕ
  keys = map (λ e. e.0)

  pub get-insert :
      (j k : ℕ) (v : V) (m : HashMap V)
      → get j (insert k v m) ≡ (if k == j then some v else get j m)
  unfolding get insert
  get-insert j k v [] = refl
  get-insert j k v ((i, w) ∷ m) = ground (arith, get-insert j k v m)

  pub get-remove :
      (j k : ℕ) (m : HashMap V) → get j (remove k m) ≡ (if k == j then none else get j m)
  unfolding get remove
  get-remove j k [] = ground arith
  get-remove j k ((i, w) ∷ m) = ground (arith, get-remove j k m)

  pub length-keys : (m : HashMap V) → length (keys m) ≡ length m
  unfolding keys
  length-keys m = length-map (λ e. e.0) m

  -- Every key that is listed is a key.
  pub keys-contains_key : (m : HashMap V) → All (λ k. contains_key k m ≡ true) (keys m)
  unfolding keys contains_key get
  keys-contains_key [] = tt
  keys-contains_key ((j, v) ∷ m) =
      (ground arith, All-map (keys m) (λ k h. ground arith) (keys-contains_key m))

  pub length-insert :
      (k : ℕ) (v : V) (m : HashMap V)
      → length (insert k v m) ≡ (if contains_key k m then length m else length m + 1)
  unfolding contains_key get insert
  length-insert k v [] = refl
  length-insert k v ((j, w) ∷ m) = ground (arith, length-insert k v m)
