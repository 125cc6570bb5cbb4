-- ===== src/Prng/Words/Algebra.antt =====
-- Exclusive or as an addition that takes itself back, and its exchange with shifts and rotations
-- (bft/prng/mod.rs).
use bafomet.Base.{ℕ, zero, suc, ◌+◌, ◌*◌, ◌/◌, ◌%◌, ◌^◌, ◌<◌, ◌≤◌, ◌≡◌, refl, sym, ap, ◌∙◌, arith}
use native.Mathlib.Nat.{div-add-mod, mod-lt, one-le-pow, add-mul-mod_self_right, mod-eq_of_lt}
use Prim.Native.Nat.{bit_xor, bit_xor-bitwise}
use bafomet.Prng.{shift_left}
use bafomet.Prng.Words.{bit_xor_step, pow_suc}

-- The digits of a sum.
bit_xor_half : (a b : ℕ) → bit_xor a b / 2 ≡ bit_xor (a / 2) (b / 2)
bit_xor_half a b = omega (arith, bit_xor_step a b)

bit_xor_digit : (a b : ℕ) → bit_xor a b % 2 ≡ (a % 2 + b % 2) % 2
bit_xor_digit a b = omega (arith, bit_xor_step a b)

-- What has the same lowest digit and the same other digits is the same.
same_digits : (x y : ℕ) → x / 2 ≡ y / 2 → x % 2 ≡ y % 2 → x ≡ y
same_digits x y h d = omega (arith, h, d)

comm_below : (n a b : ℕ) → a ≤ n → b ≤ n → bit_xor a b ≡ bit_xor b a
comm_below zero a b ha hb = ground arith
comm_below (suc n) a b ha hb = omega (
  arith,
  bit_xor_step a b,
  bit_xor_step b a,
  comm_below n (a / 2) (b / 2) (omega arith) (omega arith),
)

pub bit_xor_comm : (a b : ℕ) → bit_xor a b ≡ bit_xor b a
bit_xor_comm a b = comm_below (a + b) a b (omega arith) (omega arith)

assoc_below :
    (n a b c : ℕ) → a ≤ n → b ≤ n → c ≤ n → bit_xor (bit_xor a b) c ≡ bit_xor a (bit_xor b c)
assoc_below zero a b c ha hb hc = ground (arith, bit_xor-bitwise 0 0)
assoc_below (suc n) a b c ha hb hc =
    let left : bit_xor (bit_xor a b) c / 2 ≡ bit_xor (bit_xor (a / 2) (b / 2)) (c / 2) =
      bit_xor_half (bit_xor a b) c ∙ ap (λ h. bit_xor h (c / 2)) (bit_xor_half a b) in
    let right : bit_xor a (bit_xor b c) / 2 ≡ bit_xor (a / 2) (bit_xor (b / 2) (c / 2)) =
      bit_xor_half a (bit_xor b c) ∙ ap (bit_xor (a / 2)) (bit_xor_half b c) in
    let rest = assoc_below n (a / 2) (b / 2) (c / 2) (omega arith) (omega arith) (omega arith) in
    same_digits _ _ (left ∙ rest ∙ sym right) (
      omega (
        arith,
        bit_xor_digit (bit_xor a b) c,
        bit_xor_digit a b,
        bit_xor_digit a (bit_xor b c),
        bit_xor_digit b c,
      ))

pub bit_xor_assoc : (a b c : ℕ) → bit_xor (bit_xor a b) c ≡ bit_xor a (bit_xor b c)
bit_xor_assoc a b c = assoc_below (a + b + c) a b c (omega arith) (omega arith) (omega arith)

self_below : (n a : ℕ) → a ≤ n → bit_xor a a ≡ 0
self_below zero a ha = ground (arith, bit_xor-bitwise 0 0)
self_below (suc n) a ha = omega (arith, bit_xor_step a a, self_below n (a / 2) (omega arith))

pub bit_xor_self : (a : ℕ) → bit_xor a a ≡ 0
bit_xor_self a = self_below a a (omega arith)

pub zero-bit_xor : (b : ℕ) → bit_xor 0 b ≡ b
zero-bit_xor b = bit_xor-bitwise 0 b

-- Adding the same word twice takes it back.
pub bit_xor_back : (a b : ℕ) → bit_xor (bit_xor a b) b ≡ a
bit_xor_back a b =
    bit_xor_assoc a b b ∙ ap (bit_xor a) (bit_xor_self b) ∙ bit_xor_comm a 0 ∙ zero-bit_xor a

pub bit_xor_injective : (a b c : ℕ) → bit_xor a c ≡ bit_xor b c → a ≡ b
bit_xor_injective a b c e = sym (bit_xor_back a c) ∙ ap (λ x. bit_xor x c) e ∙ bit_xor_back b c

-- A shift by one more digit, and what it leaves of a word of one more digit.
pub shift_one : (w k : ℕ) → w * 2 ^ suc k ≡ 2 * (w * 2 ^ k)
shift_one w k = omega (arith, ap (λ (p : ℕ). w * p) (pow_suc k))

-- A doubled sum.
double-bit_xor : (a b : ℕ) → bit_xor (2 * a) (2 * b) ≡ 2 * bit_xor a b
double-bit_xor a b =
    let ha : 2 * a / 2 ≡ a = omega arith in
    let hb : 2 * b / 2 ≡ b = omega arith in
    let halves : bit_xor (2 * a / 2) (2 * b / 2) ≡ bit_xor a b = rw (ha, hb) refl in
    omega (arith, bit_xor_step (2 * a) (2 * b), halves)

mul-bit_xor : (k a b : ℕ) → bit_xor a b * 2 ^ k ≡ bit_xor (a * 2 ^ k) (b * 2 ^ k)
mul-bit_xor zero a b =
    let ha : a * 2 ^ 0 ≡ a = omega arith in
    let hb : b * 2 ^ 0 ≡ b = omega arith in rw (ha, hb) (omega arith)
mul-bit_xor (suc k) a b =
    rw (shift_one a k, shift_one b k, double-bit_xor (a * 2 ^ k) (b * 2 ^ k))
      (omega (arith, shift_one (bit_xor a b) k, mul-bit_xor k a b))

-- The rest by a power of two, digit by digit.
mod_pow_suc : (w x : ℕ) → x % 2 ^ suc w ≡ x / 2 % 2 ^ w * 2 + x % 2
mod_pow_suc w x =
    let q = x / 2 / 2 ^ w in
    let r = x / 2 % 2 ^ w * 2 + x % 2 in
    let split : x ≡ r + q * 2 ^ suc w =
      omega (arith, ap (λ (p : ℕ). q * p) (pow_suc w), div-add-mod (x / 2) (2 ^ w)) in
    let small : r < 2 ^ suc w =
      omega (arith, pow_suc w, mod-lt (x / 2) (one-le-pow w 2 (omega arith))) in
    ap (λ (y : ℕ). y % 2 ^ suc w) split
    ∙ add-mul-mod_self_right r q (2 ^ suc w)
    ∙ mod-eq_of_lt small

mod_half : (w x : ℕ) → x % 2 ^ suc w / 2 ≡ x / 2 % 2 ^ w
mod_half w x = omega (arith, mod_pow_suc w x)

mod_digit : (w x : ℕ) → x % 2 ^ suc w % 2 ≡ x % 2
mod_digit w x = omega (arith, mod_pow_suc w x)

mod-bit_xor : (w a b : ℕ) → bit_xor a b % 2 ^ w ≡ bit_xor (a % 2 ^ w) (b % 2 ^ w)
mod-bit_xor zero a b = ground (arith, bit_xor-bitwise 0 0)
mod-bit_xor (suc w) a b =
    let left : bit_xor a b % 2 ^ suc w / 2 ≡ bit_xor (a / 2) (b / 2) % 2 ^ w =
      mod_half w (bit_xor a b) ∙ ap (λ (h : ℕ). h % 2 ^ w) (bit_xor_half a b) in
    let right : bit_xor (a % 2 ^ suc w) (b % 2 ^ suc w) / 2
        ≡ bit_xor (a / 2 % 2 ^ w) (b / 2 % 2 ^ w) =
      bit_xor_half (a % 2 ^ suc w) (b % 2 ^ suc w) ∙ rw (mod_half w a, mod_half w b) refl in
    same_digits _ _ (left ∙ mod-bit_xor w (a / 2) (b / 2) ∙ sym right) (
      omega (
        arith,
        mod_digit w (bit_xor a b),
        bit_xor_digit a b,
        bit_xor_digit (a % 2 ^ suc w) (b % 2 ^ suc w),
        mod_digit w a,
        mod_digit w b,
      ))

-- A shift of a sum is the sum of the shifts.
pub shift_left-bit_xor :
    (a b k : ℕ) → shift_left (bit_xor a b) k ≡ bit_xor (shift_left a k) (shift_left b k)
shift_left-bit_xor a b k =
    ap (λ (x : ℕ). x % 2 ^ 64) (mul-bit_xor k a b) ∙ mod-bit_xor 64 (a * 2 ^ k) (b * 2 ^ k)
