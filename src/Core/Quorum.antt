-- ===== src/Core/Quorum.antt =====
-- What the sizes of `SystemParams` promise (bft/core/mod.rs), and who leads which view.
use bafomet.Base.{
  ℕ, zero, suc, ◌+◌, ◌*◌, ◌%◌, ◌^◌, ◌≤◌, ◌<◌, min, Bool, ◌&&◌, ltb, leb, if◌then◌else◌, ok, ◌≡◌,
  refl, arith,
}
use native.Mathlib.Nat.{mod-add-mod, mod-lt, mod-eq_of_lt}
use bafomet.Ordering.SeqNo.{IsSeqNo, next}
use bafomet.Core.Params
use bafomet.Core.Params.{SystemParams}
use bafomet.Core.View.{ViewInfo, leader, next_view}

-- How many of the nodes 0 .. n - 1 are in the set `p`.
abbrev pub members : ℕ → (ℕ → Bool) → ℕ
members zero p = 0
members (suc n) p = if p n then suc (members n p) else members n p

members-overlap :
    (n : ℕ) (p q : ℕ → Bool) → members n p + members n q ≤ n + members n (λ i. p i && q i)
members-overlap zero p q = omega arith
members-overlap (suc n) p q = ground (arith, members-overlap n p q)

-- In a group of exactly 3f + 1 nodes any two quorums share more than f nodes, so at least one that
-- is not faulty.
pub quorum-overlap :
    (v : SystemParams) (p q : ℕ → Bool)
    → v.n ≡ 3 * v.f + 1
    → Params.quorum v ≤ members v.n p
    → Params.quorum v ≤ members v.n q
    → v.f < members v.n (λ i. p i && q i)
quorum-overlap v p q e hp hq = omega (arith, members-overlap v.n p q)

members-below : (n k : ℕ) → members n (λ i. ltb i k) ≡ min n k
members-below zero k = omega arith
members-below (suc n) k = ground (arith, members-below n k)

members-from : (n k : ℕ) → members n (λ i. leb k i) + min n k ≡ n
members-from zero k = omega arith
members-from (suc n) k = ground (arith, members-from n k)

members-below_from : (n k : ℕ) → members n (λ i. ltb i k && leb k i) ≡ 0
members-below_from zero k = refl
members-below_from (suc n) k = ground (arith, members-below_from n k)

-- `create` also accepts larger groups, and there two quorums need not share any node: the first
-- 2f + 1 nodes and the others are quorums as soon as n is at least 4f + 2.
pub quorum_disjoint :
    (n f : ℕ) (v : SystemParams)
    → Params.create n f ≡ ok v
    → 4 * f + 2 ≤ n
    → (Params.quorum v ≤ members v.n (λ i. ltb i (2 * f + 1)))
      × (Params.quorum v ≤ members v.n (λ i. leb (2 * f + 1) i))
      × (members v.n (λ i. ltb i (2 * f + 1) && leb (2 * f + 1) i) ≡ 0)
unfolding Params.create
quorum_disjoint n f v e h = ground (
  arith,
  members-below n (2 * f + 1),
  members-from n (2 * f + 1),
  members-below_from n (2 * f + 1),
)

leader-mod :
    (v : ViewInfo)
    → IsSeqNo v.seq
    → 0 < v.params.n
    → v.params.n < 2 ^ 32
    → leader v ≡ v.seq % v.params.n
unfolding leader
leader-mod v hs hn hm =
    let small = mod-lt v.seq {m = v.params.n} hn in
    ground (arith, mod-eq_of_lt {n = v.seq % v.params.n} {m = 2 ^ 32} (omega arith))

-- The leadership goes round the group: the leader of the next view is the next node, and node 0
-- follows the last, except where the view number itself starts again.
pub leader-next_view :
    (v : ViewInfo)
    → v.seq + 1 < 2 ^ 31
    → 0 < v.params.n
    → v.params.n < 2 ^ 32
    → leader (next_view v) ≡ (leader v + 1) % v.params.n
unfolding next_view next
leader-next_view v hs hn hm = ground (
  arith,
  leader-mod v (omega arith) hn hm,
  leader-mod (next_view v) (ground arith) hn hm,
  mod-add-mod v.seq v.params.n 1,
)
