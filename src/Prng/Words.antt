-- ===== src/Prng/Words.antt =====
-- Exclusive and inclusive or, digit by digit, for the words of bft/prng/mod.rs.
pub mod Algebra
use bafomet.Base.{
  ℕ, zero, suc, ◌+◌, ◌*◌, ◌/◌, ◌%◌, ◌^◌, ◌<◌, ◌≤◌, max, ◌≡◌, ◌⊎◌, inl, inr, refl, sym, ap, ◌∙◌,
  arith,
}
use Prim.Native.Nat.{bit_or, bit_xor, bit_or-bitwise, bit_xor-bitwise, digits, bitwise, differ}

-- Both operations, by what they do to two digits.
module _ (f : ℕ → ℕ → ℕ) where
  abbrev both : ℕ → ℕ → ℕ
  both a b = bitwise (λ y. y) f a b

  digits_enough : (n m a b : ℕ) → a ≤ n → a ≤ m → digits (λ y. y) f n a b ≡ digits (λ y. y) f m a b
  digits_enough zero zero a b hn hm = refl
  digits_enough zero (suc m) zero b hn hm = refl
  digits_enough (suc n) zero zero b hn hm = refl
  digits_enough (suc n) (suc m) zero b hn hm = refl
  digits_enough zero (suc m) (suc a) b hn hm = absurd (omega arith)
  digits_enough (suc n) zero (suc a) b hn hm = absurd (omega arith)
  digits_enough (suc n) (suc m) (suc a) b hn hm =
      ap (λ high. high * 2 + f (suc a % 2) (b % 2))
        (digits_enough n m (suc a / 2) (b / 2) (omega arith) (omega arith))

  both_step :
      ((y : ℕ) → f 0 y ≡ y) → (a b : ℕ) → both a b ≡ both (a / 2) (b / 2) * 2 + f (a % 2) (b % 2)
  both_step start zero b = rw (start (b % 2)) (omega arith)
  both_step start (suc a) b =
      ap (λ high. high * 2 + f (suc a % 2) (b % 2))
        (digits_enough a (suc a / 2) (suc a / 2) (b / 2) (omega arith) (omega arith))

digit_cases : (a : ℕ) → (a % 2 ≡ 0) ⊎ (a % 2 ≡ 1)
digit_cases a = omega arith

differ-sum : (x y : ℕ) → x < 2 → y < 2 → differ x y ≡ (x + y) % 2
differ-sum zero y hx hy = omega arith
differ-sum (suc zero) zero hx hy = refl
differ-sum (suc zero) (suc zero) hx hy = refl
differ-sum (suc x) (suc (suc y)) hx hy = absurd (omega arith)
differ-sum (suc (suc x)) y hx hy = absurd (omega arith)

pub bit_xor_step : (a b : ℕ) → bit_xor a b ≡ bit_xor (a / 2) (b / 2) * 2 + (a % 2 + b % 2) % 2
bit_xor_step a b = omega (
  arith,
  bit_xor-bitwise a b,
  bit_xor-bitwise (a / 2) (b / 2),
  both_step differ (λ y. refl) a b,
  differ-sum (a % 2) (b % 2) (omega arith) (omega arith),
)

pub bit_or_step : (a b : ℕ) → bit_or a b ≡ bit_or (a / 2) (b / 2) * 2 + max (a % 2) (b % 2)
bit_or_step a b = omega (
  arith,
  bit_or-bitwise a b,
  bit_or-bitwise (a / 2) (b / 2),
  both_step max (λ y. omega arith) a b,
)

pow_suc : (w : ℕ) → 2 ^ suc w ≡ 2 * 2 ^ w
pow_suc w = ground arith

pub bit_xor_fits : (w a b : ℕ) → a < 2 ^ w → b < 2 ^ w → bit_xor a b < 2 ^ w
bit_xor_fits zero a b ha hb = ground (arith, bit_xor-bitwise 0 0)
bit_xor_fits (suc w) a b ha hb = omega (
  arith,
  pow_suc w,
  bit_xor_step a b,
  bit_xor_fits w (a / 2) (b / 2) (omega (arith, pow_suc w)) (omega (arith, pow_suc w)),
)

pub bit_or_fits : (w a b : ℕ) → a < 2 ^ w → b < 2 ^ w → bit_or a b < 2 ^ w
bit_or_fits zero a b ha hb = ground (arith, bit_or-bitwise 0 0)
bit_or_fits (suc w) a b ha hb = omega (
  arith,
  pow_suc w,
  bit_or_step a b,
  bit_or_fits w (a / 2) (b / 2) (omega (arith, pow_suc w)) (omega (arith, pow_suc w)),
)
