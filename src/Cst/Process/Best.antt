-- ===== src/Cst/Process/Best.antt =====
-- The received states, and the one with the most replies (bft/cst/mod.rs).
use bafomet.Base.{
  ℕ, ◌+◌, ◌≤◌, [], ◌∷◌, none, some, Option-cases, ◌≡◌, ◌≢◌, refl, arith, inl, inr, HashMap, get,
  insert, get-insert,
}
use bafomet.Message.{Digest}
use bafomet.Message.System.{RecoveryState}
use bafomet.Cst.State.{ReceivedState}
use bafomet.Cst.Process.{count_state, best}

module _ {S O : Type 0} where
  -- How many replies the entries stand for.
  abbrev pub total : HashMap (ReceivedState S O) → ℕ
  total [] = 0
  total ((d, r) ∷ states) = r.count + total states

  -- No digest stands twice.
  abbrev pub IsUnique : HashMap (ReceivedState S O) → Type 0
  IsUnique [] = Unit
  IsUnique ((d, r) ∷ states) = (get d states ≡ none) × IsUnique states

  pub count-le-total :
      (states : HashMap (ReceivedState S O)) (d : Digest) (r : ReceivedState S O)
      → get d states ≡ some r
      → r.count ≤ total states
  unfolding get
  count-le-total [] d r e = cc
  count-le-total ((j, s) ∷ states) d r e = ground (arith, count-le-total states d r)

  -- Two entries are counted apart.
  pub counts-le-total :
      (states : HashMap (ReceivedState S O)) (d e : Digest) (r s : ReceivedState S O)
      → d ≢ e
      → get d states ≡ some r
      → get e states ≡ some s
      → r.count + s.count ≤ total states
  unfolding get
  counts-le-total [] d e r s n p q = cc
  counts-le-total ((j, t) ∷ states) d e r s n p q = ground (
    arith,
    counts-le-total states d e r s n,
    count-le-total states d r,
    count-le-total states e s,
  )

  -- What stands for `digest` in the new map, and one more in total.
  pub total-count_state :
      (states : HashMap (ReceivedState S O)) (digest : Digest) (s : RecoveryState S O)
      → total (count_state digest s states) ≡ 1 + total states
  unfolding count_state get insert
  total-count_state [] digest s = refl
  total-count_state ((j, t) ∷ states) digest s = ground (arith, total-count_state states digest s)

  pub IsUnique-insert :
      (states : HashMap (ReceivedState S O)) (d : Digest) (r : ReceivedState S O)
      → IsUnique states
      → IsUnique (insert d r states)
  unfolding get insert
  IsUnique-insert [] d r u = (refl, tt)
  IsUnique-insert ((j, t) ∷ states) d r u =
      ground (arith, IsUnique-insert states d r u.1, get-insert j d r states)

  pub best-none :
      (states : HashMap (ReceivedState S O)) (d : Digest) → best states ≡ none → get d states ≡ none
  unfolding best get
  best-none [] d e = refl
  best-none ((j, t) ∷ states) d e = ground arith

  pub best-get :
      (states : HashMap (ReceivedState S O)) (d : Digest) (r : ReceivedState S O)
      → IsUnique states
      → best states ≡ some (d, r)
      → get d states ≡ some r
  unfolding best get
  best-get [] d r u e = cc
  best-get ((j, t) ∷ states) d r u e = ground (arith, best-get states d r u.1)

  pub best-max :
      (states : HashMap (ReceivedState S O)) (d e : Digest) (r s : ReceivedState S O)
      → best states ≡ some (e, s)
      → get d states ≡ some r
      → r.count ≤ s.count
  unfolding best get
  best-max [] d e r s p q = cc
  best-max ((j, t) ∷ states) d e r s p q = elim (Option-cases (best states)) [
    | inl none_left ↦ ground (arith, none_left, best-none states d none_left)
    | inr ((i, u), found) ↦ ground (arith, found, best-max states d i r u found)
  ]
