-- ===== src/Prng/Tests.antt =====
-- The generator from the state 1, 2, 3, 4.
use bafomet.Base.{◌≡◌, refl, arith}
use bafomet.Prng.{State, IsState, rotl, next_state}
use bafomet.Prng.Reversible.{next_state_injective}

abbrev counted : State
counted = record { s0 = 1; s1 = 2; s2 = 3; s3 = 4 }

counted-IsState : IsState counted
counted-IsState = (omega arith, omega arith, omega arith, omega arith)

first_number : (next_state counted).0 ≡ 11520
unfolding next_state rotl
first_number = refl

second_number : (next_state (next_state counted).1).0 ≡ 0
unfolding next_state rotl
second_number = refl

third_number : (next_state (next_state (next_state counted).1).1).0 ≡ 1509978240
unfolding next_state rotl
third_number = refl

-- The state that the generator steps to from `counted` is stepped to from no other.
abbrev after : State
after = record { s0 = 7; s1 = 0; s2 = 262146; s3 = 211106232532992 }

after-step : (next_state counted).1 ≡ after
unfolding next_state rotl
after-step = refl

next_state_injective_example : counted ≡ counted
next_state_injective_example =
    next_state_injective counted counted counted-IsState counted-IsState refl
