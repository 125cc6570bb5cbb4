-- ===== src/Prng/Reversible.antt =====
-- The step of the generator (bft/prng/mod.rs) as a map of its states.
use bafomet.Base.{ℕ, zero, suc, ◌+◌, ◌*◌, ◌/◌, ◌%◌, ◌^◌, ◌<◌, ◌≤◌, ◌≡◌, refl, sym, ap, ◌∙◌, arith}
use Prim.Native.Nat.{bit_or, bit_xor, bit_or-bitwise}
use bafomet.Prng.{State, IsState, shift_left, wrapping_mul, rotl, next_state}
use bafomet.Prng.Words.{bit_or_step, bit_xor_fits, bit_or_fits}
use bafomet.Prng.Words.Algebra.{
  shift_one, bit_xor_assoc, bit_xor_comm, bit_xor_back, bit_xor_injective, zero-bit_xor,
  shift_left-bit_xor,
}

bit_or-zero_below : (n a : ℕ) → a ≤ n → bit_or a 0 ≡ a
bit_or-zero_below zero a h = ground (arith, bit_or-bitwise 0 0)
bit_or-zero_below (suc n) a h =
    omega (arith, bit_or_step a 0, bit_or-zero_below n (a / 2) (omega arith))

-- Two fields that do not meet are added.
fields_or : (k high low : ℕ) → low < 2 ^ k → bit_or (high * 2 ^ k) low ≡ high * 2 ^ k + low
fields_or zero high low h =
    let none : low ≡ 0 = omega (arith, h) in
    rw (none) (omega (arith, bit_or-zero_below (high * 2 ^ 0) (high * 2 ^ 0) (omega arith)))
fields_or (suc k) high low h =
    let shifted : high * 2 ^ suc k / 2 ≡ high * 2 ^ k = omega (arith, shift_one high k) in
    let above : bit_or (high * 2 ^ suc k / 2) (low / 2) ≡ bit_or (high * 2 ^ k) (low / 2) =
      rw (shifted) refl in
    omega (
      arith,
      shift_one high k,
      bit_or_step (high * 2 ^ suc k) low,
      above,
      fields_or k high (low / 2) (omega (arith, h, shift_one 1 k)),
    )

rotl-fields : (x : ℕ) → x < 2 ^ 64 → rotl x 45 ≡ x % 2 ^ 19 * 2 ^ 45 + x / 2 ^ 19
unfolding rotl
rotl-fields x h =
    let moved : shift_left x 45 ≡ x % 2 ^ 19 * 2 ^ 45 = omega arith in
    ap (λ high. bit_or high (x / 2 ^ 19)) moved
    ∙ fields_or 45 (x % 2 ^ 19) (x / 2 ^ 19) (omega (arith, h))

rotl-injective : (x y : ℕ) → x < 2 ^ 64 → y < 2 ^ 64 → rotl x 45 ≡ rotl y 45 → x ≡ y
rotl-injective x y hx hy e = omega (arith, hx, hy, e, rotl-fields x hx, rotl-fields y hy)

-- Terms change sides.
across : (a b c d : ℕ) → bit_xor a b ≡ bit_xor c d → bit_xor a c ≡ bit_xor b d
across a b c d e =
    let a_is : a ≡ bit_xor (bit_xor c d) b = sym (bit_xor_back a b) ∙ ap (λ x. bit_xor x b) e in
    ap (λ x. bit_xor x c) (a_is ∙ bit_xor_assoc c d b ∙ bit_xor_comm c (bit_xor d b))
    ∙ bit_xor_back (bit_xor d b) c
    ∙ bit_xor_comm d b

-- A word is determined by its sum with itself shifted.
unshift :
    (x y : ℕ)
    → x < 2 ^ 64
    → y < 2 ^ 64
    → bit_xor x (shift_left x 17) ≡ bit_xor y (shift_left y 17)
    → x ≡ y
unshift x y hx hy e =
    let z = bit_xor x y in
    let fixed : z ≡ shift_left z 17 =
      across x (shift_left x 17) y (shift_left y 17) e ∙ sym (shift_left-bit_xor x y 17) in
    let none : z ≡ 0 = omega (arith, fixed, bit_xor_fits 64 x y hx hy) in
    sym (bit_xor_back x y) ∙ ap (λ w. bit_xor w y) none ∙ zero-bit_xor y

rotl-fits : (x : ℕ) → x < 2 ^ 64 → rotl x 45 < 2 ^ 64
unfolding rotl
rotl-fits x h = bit_or_fits 64 (shift_left x 45) (x / 2 ^ 19) (omega arith) (omega (arith, h))

-- The middle of a sum cancels.
chain : (x y z : ℕ) → bit_xor (bit_xor x y) (bit_xor y z) ≡ bit_xor x z
chain x y z = sym (bit_xor_assoc (bit_xor x y) y z) ∙ ap (λ w. bit_xor w z) (bit_xor_back x y)

-- Every number of the generator fits 64 bits, and so does its state after it.
pub next_state-IsState :
    (s : State) → IsState s → ((next_state s).0 < 2 ^ 64) × IsState (next_state s).1
unfolding next_state
next_state-IsState s (h0, h1, h2, h3) =
    let b3 = bit_xor_fits 64 s.s3 s.s1 h3 h1 in
    let b2 = bit_xor_fits 64 s.s2 s.s0 h2 h0 in
    let number : wrapping_mul (rotl (wrapping_mul s.s1 5) 7) 9 < 2 ^ 64 = omega arith in
    (
      number,
      (
        bit_xor_fits 64 s.s0 _ h0 b3,
        bit_xor_fits 64 s.s1 _ h1 b2,
        bit_xor_fits 64 _ (shift_left s.s1 17) b2 (omega arith),
        rotl-fits _ b3,
      ),
    )

-- No two states of four 64-bit words step to the same state.
pub next_state_injective :
    (s r : State) → IsState s → IsState r → (next_state s).1 ≡ (next_state r).1 → s ≡ r
unfolding next_state
next_state_injective s r (s0, s1, s2, s3) (r0, r1, r2, r3) e =
    let a = bit_xor s.s3 s.s1 in
    let c = bit_xor r.s3 r.s1 in
    let b = bit_xor s.s2 s.s0 in
    let d = bit_xor r.s2 r.s0 in
    let same_a : a ≡ c =
      rotl-injective a c (bit_xor_fits 64 s.s3 s.s1 s3 s1) (bit_xor_fits 64 r.s3 r.s1 r3 r1)
        (ap (λ t. t.s3) e) in
    let same_0 : s.s0 ≡ r.s0 =
      bit_xor_injective s.s0 r.s0 a (ap (λ t. t.s0) e ∙ rw (same_a) refl) in
    let sum1 : bit_xor s.s1 b ≡ bit_xor r.s1 d = ap (λ t. t.s1) e in
    let sum2 : bit_xor b (shift_left s.s1 17) ≡ bit_xor d (shift_left r.s1 17) = ap (λ t. t.s2) e in
    let same_1 : s.s1 ≡ r.s1 = unshift s.s1 r.s1 s1 r1 (
      sym (chain s.s1 b (shift_left s.s1 17))
      ∙ ap (λ x. bit_xor x (bit_xor b (shift_left s.s1 17))) sum1
      ∙ ap (bit_xor (bit_xor r.s1 d)) sum2
      ∙ chain r.s1 d (shift_left r.s1 17)) in
    let same_b : b ≡ d =
      bit_xor_injective b d s.s1
        (bit_xor_comm b s.s1 ∙ sum1 ∙ bit_xor_comm r.s1 d ∙ ap (bit_xor d) (sym same_1)) in
    let same_2 : s.s2 ≡ r.s2 = bit_xor_injective s.s2 r.s2 s.s0 (same_b ∙ rw (same_0) refl) in
    let same_3 : s.s3 ≡ r.s3 = bit_xor_injective s.s3 r.s3 s.s1 (same_a ∙ rw (same_1) refl) in cc
