-- ===== src/Consensus/Poll/Missing.antt =====
-- `poll` forgets no request that the log does not have (bft/consensus/mod.rs).
use bafomet.Base.{
  ℕ, zero, suc, ◌+◌, ◌-◌, ◌≤◌, ◌<◌, Bool, true, false, Bool-cases, ◌==◌, ltb, if◌then◌else◌, inl,
  inr, Option, none, some, List, [], ◌∷◌, length, length-set, set, last, get_or, ◌≡◌, ◌≢◌, refl,
  arith, ◌∙◌, ap, sym, subst,
}
use bafomet.Base
use bafomet.Ordering.Queue.Slots.{get_or-set}
use bafomet.Message.{Digest}
use bafomet.Consensus.Poll.{swap_remove_back, available_indices, remove_indices, remove_available}

-- The digest at a position.
abbrev pub at : List Digest → ℕ → Digest
at xs i = get_or xs i 0

at-init : (xs : List Digest) (j : ℕ) → j + 1 < length xs → at (Base.init xs) j ≡ at xs j
at-init [] j h = refl
at-init (x ∷ []) j h = absurd (omega (arith, h))
at-init (x ∷ y ∷ xs) zero h = refl
at-init (x ∷ y ∷ xs) (suc j) h = ground (arith, at-init (y ∷ xs) j (omega (arith, h)))

length-init : (xs : List Digest) → length (Base.init xs) ≡ length xs - 1
length-init [] = refl
length-init (x ∷ []) = omega arith
length-init (x ∷ y ∷ xs) = ground (arith, length-init (y ∷ xs))

last-at : (x : Digest) (xs : List Digest) → last (x ∷ xs) ≡ some (at (x ∷ xs) (length xs))
last-at x [] = refl
last-at x (y ∷ xs) = ground (arith, last-at y xs)

-- What stands where after an element was removed: the last one takes its place.
abbrev pub end_of : List Digest → Digest
end_of xs = at xs (length xs - 1)

swap_remove_back-cons :
    (i : ℕ) (xs : List Digest)
    → i < length xs
    → swap_remove_back i xs ≡ Base.init (set xs i (end_of xs))
unfolding swap_remove_back
swap_remove_back-cons i [] h = absurd (omega (arith, h))
swap_remove_back-cons i (x ∷ xs) h = ground (arith, h, last-at x xs)

length-swap_remove_back :
    (i : ℕ) (xs : List Digest) → i < length xs → length (swap_remove_back i xs) ≡ length xs - 1
length-swap_remove_back i xs h =
    rw (swap_remove_back-cons i xs h)
      (omega (arith, length-init (set xs i (end_of xs)), length-set xs i (end_of xs)))

at-swap_remove_back :
    (i j : ℕ) (xs : List Digest)
    → i < length xs
    → j + 1 < length xs
    → at (swap_remove_back i xs) j ≡ (if i == j then end_of xs else at xs j)
at-swap_remove_back i j xs h k = rw (swap_remove_back-cons i xs h) (
    at-init (set xs i (end_of xs)) j (omega (arith, length-set xs i (end_of xs), k))
    ∙ get_or-set xs i j (end_of xs) 0 h)

-- From position `b` on, `xs` goes with `zs`.
abbrev pub Agrees : ℕ → List Digest → List Digest → Type 0
Agrees b xs zs = (i : ℕ) → b + i < length xs → (i < length zs) × (at xs (b + i) ≡ at zs i)

Agrees-suc :
    (b : ℕ) (z : Digest) (zs xs : List Digest) → Agrees b xs (z ∷ zs) → Agrees (b + 1) xs zs
Agrees-suc b z zs xs a i h = ground (arith, a (suc i), h)

Agrees-swap :
    (b : ℕ) (z : Digest) (zs xs : List Digest)
    → b < length xs
    → Agrees b xs (z ∷ zs)
    → Agrees (b + 1) (swap_remove_back b xs) zs
Agrees-swap b z zs xs h a i k =
    ground
      (arith, a (suc i), k, length-swap_remove_back b xs h, at-swap_remove_back b (b + 1 + i) xs h)

-- The digest stands somewhere in the list.
abbrev pub Stands : Digest → List Digest → Type 0
Stands d xs = (j : ℕ) × (j < length xs) × (at xs j ≡ d)

-- Only the element at `i` goes.
Stands-swap :
    (i : ℕ) (d : Digest) (xs : List Digest)
    → i < length xs
    → at xs i ≢ d
    → Stands d xs
    → Stands d (swap_remove_back i xs)
Stands-swap i d xs h n (j, k, e) =
    let apart : i ≢ j = λ p. n (ap (at xs) p ∙ e) in
    let shorter = length-swap_remove_back i xs h in
    elim (Bool-cases (j + 1 == length xs)) [
      | inl final ↦
          let below : i + 1 < length xs = ground (arith, h, apart, final) in
          let place : length xs - 1 ≡ j = ground (arith, final) in
          (
            i,
            omega (arith, shorter, below),
            ground (arith, at-swap_remove_back i i xs h below) ∙ ap (at xs) place ∙ e,
          )
      | inr earlier ↦
          let below : j + 1 < length xs = ground (arith, k, earlier) in
          (
            j,
            omega (arith, shorter, below),
            ground (arith, at-swap_remove_back i j xs h below, apart) ∙ e,
          )
    ]

swap_remove_back_beyond :
    (i : ℕ) (xs : List Digest) → ltb i (length xs) ≡ false → swap_remove_back i xs ≡ xs
unfolding swap_remove_back
swap_remove_back_beyond i xs e = rw e refl

remove_indices-Stands :
    (has : Digest → Bool) (d : Digest) (b : ℕ) (zs xs : List Digest)
    → has d ≡ false
    → Agrees b xs zs
    → Stands d xs
    → Stands d (remove_indices (available_indices has b zs) xs)
unfolding remove_indices available_indices
remove_indices-Stands has d b [] xs n a s = s
remove_indices-Stands has d b (z ∷ zs) xs n a s = elim (Bool-cases (has z)) [
  | inr e ↦ rw e (remove_indices-Stands has d (b + 1) zs xs n (Agrees-suc b z zs xs a) s)
  | inl e ↦ elim (Bool-cases (ltb b (length xs))) [
    | inl f ↦
        let h : b < length xs = ground (arith, f) in
        let here : at xs b ≡ z = ap (at xs) (omega arith) ∙ (a 0 (omega (arith, h))).1 in
        let other : at xs b ≢ d = λ p. ground (arith, ap has (sym here ∙ p), e, n) in
        rw e (
          remove_indices-Stands has d (b + 1) zs (swap_remove_back b xs) n
            (Agrees-swap b z zs xs h a) (Stands-swap b d xs h other s))
    | inr f ↦ rw e (
        subst (λ ys. Stands d (remove_indices (available_indices has (b + 1) zs) ys))
          (sym (swap_remove_back_beyond b xs f))
          (remove_indices-Stands has d (b + 1) zs xs n (Agrees-suc b z zs xs a) s))
  ]
]

-- A missing request that the log still does not have stays among the missing ones, whatever the
-- order in which the others are removed.
pub remove_available-Stands :
    (has : Digest → Bool) (ds : List Digest) (d : Digest)
    → has d ≡ false
    → Stands d ds
    → Stands d (remove_available has ds)
unfolding remove_available
remove_available-Stands has ds d n s =
    remove_indices-Stands has d 0 ds ds n (λ i h. (omega (arith, h), ap (at ds) (omega arith))) s
