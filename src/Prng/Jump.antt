-- ===== src/Prng/Jump.antt =====
-- The jump of a new generator (bft/prng/mod.rs).
use bafomet.Base.{ℕ, zero, suc, ◌+◌, ◌/◌, ◌%◌, ◌^◌, ◌==◌, if◌then◌else◌, List, [], ◌∷◌}
use Prim.Native.Nat.{bit_xor}
use bafomet.Prng.{State, next_state}

-- The words that are summed up, and the state that steps on.
abbrev Jumped : Type 0
Jumped = State × State

add_words : State → State → State
add_words a s = record {
  s0 = bit_xor a.s0 s.s0;
  s1 = bit_xor a.s1 s.s1;
  s2 = bit_xor a.s2 s.s2;
  s3 = bit_xor a.s3 s.s3;
}

-- One bit of a jump value.
jump_bit : ℕ → ℕ → Jumped → Jumped
unfolding add_words
jump_bit jmp_val b (a, s) =
    let stepped = (next_state s).1 in
    if jmp_val / 2 ^ b % 2 == 1 then (add_words a s, stepped) else (a, stepped)

-- The bits from `b` on, `n` of them.
jump_bits : ℕ → ℕ → ℕ → Jumped → Jumped
unfolding jump_bit
jump_bits zero b jmp_val j = j
jump_bits (suc n) b jmp_val j = jump_bits n (b + 1) jmp_val (jump_bit jmp_val b j)

jump_words : List ℕ → Jumped → Jumped
unfolding jump_bits
jump_words [] j = j
jump_words (jmp_val ∷ values) j = jump_words values (jump_bits 64 0 jmp_val j)

abbrev jump_values : List ℕ
jump_values = 0x76e15d3efefdcbbf ∷ 0xc5004e441c522fb3 ∷ 0x77710069854ee241 ∷ 0x39109bb02acbe635 ∷ []

unfoldable pub long_jump : State → State
unfolding jump_words
long_jump s = (jump_words jump_values (record { s0 = 0; s1 = 0; s2 = 0; s3 = 0 }, s)).0

-- `State::new`, of the words that the operating system gives.
unfoldable pub create : State → State
unfolding long_jump
create seed = long_jump seed
