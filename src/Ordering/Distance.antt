-- ===== src/Ordering/Distance.antt =====
-- What `index` and the two orders on sequence numbers compute (bft/ordering/mod.rs).
use bafomet.Base.{ℕ, suc, ◌+◌, ◌%◌, ◌^◌, ◌≤◌, ◌<◌, Ordering, ◌≡◌, ◌↔◌, false, arith}
use bafomet.Ordering.SeqNo.{SeqNo, IsSeqNo, right, index, next, cmp, partial_cmp, lt_seq}

-- Among the sequence numbers in use, the successor wraps from the last one to zero.
pub next-mod : (s : SeqNo) → IsSeqNo s → next s ≡ (s + 1) % 2 ^ 31
unfolding next
next-mod s h = ground arith

pub next-IsSeqNo : (s : SeqNo) → IsSeqNo s → IsSeqNo (next s)
next-IsSeqNo s h = omega (arith, next-mod s h)

index_sound :
    (t s k : ℕ) → IsSeqNo s → index t s ≡ right k → (k ≤ 1500) × (t % 2 ^ 31 ≡ (s + k) % 2 ^ 31)
unfolding index
index_sound t s k hs e = ground arith

index_complete :
    (t s k : ℕ) → IsSeqNo s → (k ≤ 1500) × (t % 2 ^ 31 ≡ (s + k) % 2 ^ 31) → index t s ≡ right k
unfolding index
index_complete t s k hs e = ground arith

-- For `s` in use, `index t s` is the slot `k` exactly when `k` is at most 1500 and `t`, without its
-- sign bit, is `k` steps after `s`, counted round the end of the sequence numbers.
pub index_iff :
    (t s k : ℕ) → IsSeqNo s → (index t s ≡ right k) ↔ ((k ≤ 1500) × (t % 2 ^ 31 ≡ (s + k) % 2 ^ 31))
index_iff t s k hs = (index_sound t s k hs, index_complete t s k hs)

-- What is `k + 1` steps ahead is `k` steps ahead of the successor, also where the successor wraps.
pub index-next : (t s k : ℕ) → IsSeqNo s → index t s ≡ right (suc k) → index t (next s) ≡ right k
index-next t s k hs e =
    let d = index_sound t s (suc k) hs e in
    index_complete t (next s) k (next-IsSeqNo s hs) (omega (arith, next-mod s hs))

-- Up to 10000 apart, `PartialOrd` agrees with the derived `Ord`.
pub partial_cmp_near :
    (a b : ℕ) → IsSeqNo a → IsSeqNo b → a ≤ b + 10000 → b ≤ a + 10000 → partial_cmp a b ≡ cmp a b
unfolding partial_cmp cmp
partial_cmp_near a b ha hb h k = ground arith

-- More than 10000 apart, they disagree: `Ord` says that `a` is less than `b`, and `PartialOrd`
-- that it is greater, so `a < b` is false.
pub partial_cmp_far :
    (a b : ℕ)
    → IsSeqNo b
    → a + 10000 < b
    → (cmp a b ≡ Ordering.lt) × (partial_cmp a b ≡ Ordering.gt) × (lt_seq a b ≡ false)
unfolding partial_cmp cmp lt_seq
partial_cmp_far a b hb h = ground arith
