-- ===== src/Prng.antt =====
-- bft/prng/mod.rs: the generator xoshiro256** that nonces come from. The seed is of the operating
-- system: a state to start from.
pub mod Words
pub mod Jump
pub mod Reversible
mod Tests
use bafomet.Base.{ℕ, ◌+◌, ◌*◌, ◌/◌, ◌%◌, ◌^◌, ◌-◌, ◌<◌}
use Prim.Native.Nat.{bit_or, bit_xor}

pub record State : Type 0 where
  pub s0 : ℕ
  pub s1 : ℕ
  pub s2 : ℕ
  pub s3 : ℕ

-- `x << k` and `x.wrapping_mul(y)` of a `u64`.
abbrev pub shift_left : ℕ → ℕ → ℕ
shift_left x k = x * 2 ^ k % 2 ^ 64

abbrev pub wrapping_mul : ℕ → ℕ → ℕ
wrapping_mul x y = x * y % 2 ^ 64

unfoldable pub rotl : ℕ → ℕ → ℕ
rotl x k = bit_or (shift_left x k) (x / 2 ^ (64 - k))

-- `next_state`: the number, and the state after it. Each `^=` is a new word of the state.
unfoldable pub next_state : State → ℕ × State
unfolding rotl
next_state s =
    let result = wrapping_mul (rotl (wrapping_mul s.s1 5) 7) 9 in
    let t = shift_left s.s1 17 in
    let s2 = bit_xor s.s2 s.s0 in
    let s3 = bit_xor s.s3 s.s1 in
    let s1 = bit_xor s.s1 s2 in
    let s0 = bit_xor s.s0 s3 in
    (result, record { s0 = s0; s1 = s1; s2 = bit_xor s2 t; s3 = rotl s3 45 })

-- Each word of the state fits 64 bits.
abbrev pub IsState : State → Type 0
IsState s = (s.s0 < 2 ^ 64) × (s.s1 < 2 ^ 64) × (s.s2 < 2 ^ 64) × (s.s3 < 2 ^ 64)
