-- ===== src/Ordering/SeqNo.antt =====
-- `SeqNo` (bft/ordering/mod.rs), an `i32`, as its bit pattern: a number below 2 ^ 32, negative
-- from 2 ^ 31 on.
use bafomet.Base.{
  ℕ, ◌+◌, ◌-◌, ◌%◌, ◌^◌, ◌<◌, ◌/◌, compare, Ordering, Bool, true, false, ◌||◌, ltb, ◌==◌,
  if◌then◌else◌,
}

abbrev pub SeqNo : Type 0
SeqNo = ℕ

-- The sequence numbers in use, zero and up.
abbrev pub IsSeqNo : SeqNo → Type 0
IsSeqNo s = s < 2 ^ 31

pub data InvalidSeqNo : Type 0 where
  small big : InvalidSeqNo

pub data Either {ℓ κ} (A : Type ℓ) (B : Type κ) : Type (ℓ ⊔ κ) where
  left : A → Either A B
  right : B → Either A B

-- `i32` operations on bit patterns.
abbrev pub i32_max : ℕ
i32_max = 2147483647

abbrev pub wrapping_add : ℕ → ℕ → ℕ
wrapping_add a b = (a + b) % 2 ^ 32

abbrev pub wrapping_sub : ℕ → ℕ → ℕ
wrapping_sub a b = (a + 2 ^ 32 - b) % 2 ^ 32

abbrev pub neg_i32 : ℕ → ℕ
neg_i32 a = wrapping_sub 0 a

-- Flipping the sign bit turns the signed order into the order of numbers.
abbrev pub flip_sign : ℕ → ℕ
flip_sign a = (a + 2 ^ 31) % 2 ^ 32

abbrev pub lt_i32 : ℕ → ℕ → Bool
lt_i32 a b = ltb (flip_sign a) (flip_sign b)

-- `as usize` extends the sign.
abbrev pub as_usize : ℕ → ℕ
as_usize a = if ltb a (2 ^ 31) then a else 2 ^ 64 - 2 ^ 32 + a

-- `SeqNo::from(u32)` keeps the bits, and so does `u32::from(SeqNo)`.
unfoldable pub from_u32 : ℕ → SeqNo
from_u32 n = n % 2 ^ 32

unfoldable pub next : SeqNo → SeqNo
next s = if s == i32_max then 0 else wrapping_add s 1

abbrev pub overflow_thres_pos : ℕ
overflow_thres_pos = 10000

abbrev pub overflow_thres_neg : ℕ
overflow_thres_neg = neg_i32 overflow_thres_pos

-- `log::PERIOD`
abbrev pub period : ℕ
period = 1000

abbrev pub drop_seqno_thres : ℕ
drop_seqno_thres = period + period / 2

-- The distance from `other` to `self`, taken round the end of the positive numbers where the two
-- are more than `overflow_thres_pos` apart.
unfoldable pub distance : SeqNo → SeqNo → ℕ
distance self other =
    let index = wrapping_sub self other in
    if lt_i32 index overflow_thres_neg || lt_i32 overflow_thres_pos index
    then wrapping_add (wrapping_add i32_max index) 1
    else index

unfoldable pub index : SeqNo → SeqNo → Either InvalidSeqNo ℕ
unfolding distance
index self other =
    let i = distance self other in
    if lt_i32 i 0 || lt_i32 drop_seqno_thres i
    then left (if lt_i32 i 0 then small else big)
    else right i

-- The derived `Ord`, which orders the numbers themselves.
unfoldable pub cmp : SeqNo → SeqNo → Ordering
cmp a b = compare (flip_sign a) (flip_sign b)

-- The hand-written `PartialOrd`, which goes by `index`.
unfoldable pub partial_cmp : SeqNo → SeqNo → Ordering
unfolding index
partial_cmp self other = elim (index self other) [
  | left small ↦ Ordering.lt
  | left big ↦ Ordering.gt
  | right i ↦ if i == 0 then Ordering.eq else Ordering.gt
]

-- `a < b` and `a >= b` on sequence numbers go by `partial_cmp`.
unfoldable pub lt_seq : SeqNo → SeqNo → Bool
unfolding partial_cmp
lt_seq a b = elim (partial_cmp a b) [ Ordering.lt ↦ true | _ ↦ false ]

unfoldable pub ge_seq : SeqNo → SeqNo → Bool
unfolding partial_cmp
ge_seq a b = elim (partial_cmp a b) [ Ordering.lt ↦ false | _ ↦ true ]

-- `trait Orderable`.
pub record Orderable {ℓ} (M : Type ℓ) : Type ℓ where
  pub sequence_number : M → SeqNo

abbrev pub sequence_number {ℓ} : {M : Type ℓ} ⦃o : Orderable M⦄ → M → SeqNo
sequence_number ⦃o⦄ = o.sequence_number
