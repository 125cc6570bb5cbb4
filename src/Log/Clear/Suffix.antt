-- ===== src/Log/Clear/Suffix.antt =====
-- Removing by index and `swap_remove` drops the newest messages of an instance, in order
-- (bft/consensus/log/mod.rs).
use mathlib.Core.List.{reverse-cons, reverse-reverse}
use bafomet.Base.{
  ℕ, false, ◌==◌, if◌then◌else◌, Bool-cases, inl, inr, Option, none, some, Option-cases, ==_refl,
  ok, List, [], ◌∷◌, ◌++◌, length, length-append, set, init, last, get_elem?, reverse, ◌≡◌, refl,
  ap, subst, ◌<◌, arith,
}
use bafomet.Ordering.SeqNo.{SeqNo}
use bafomet.Message.{Digest}
use bafomet.Log.Types.{DecisionLog}
use bafomet.Log.Decision.{Stored}
use bafomet.Log.Clear.{
  is_index, swap_remove, scratch_indices, remove_all, clear_log, find_digest, find_value,
  remove_with, clear_last_occurrences,
}

module _ {ℓ} {A : Type ℓ} where
  pub length-reverse : (xs : List A) → length (reverse xs) ≡ length xs
  length-reverse [] = refl
  length-reverse (x ∷ xs) =
      omega (
        arith,
        ap length (reverse-cons x xs),
        length-append (reverse xs) (x ∷ []),
        length-reverse xs,
      )

  get_elem?-append_last : (xs : List A) (x : A) → get_elem? (xs ++ x ∷ []) (length xs) ≡ some x
  get_elem?-append_last [] x = refl
  get_elem?-append_last (y ∷ xs) x = get_elem?-append_last xs x

  set-append_last : (xs : List A) (x v : A) → set (xs ++ x ∷ []) (length xs) v ≡ xs ++ v ∷ []
  set-append_last [] x v = refl
  set-append_last (y ∷ xs) x v = ap (◌∷◌ y) (set-append_last xs x v)

  pub last-append : (xs : List A) (x : A) → last (xs ++ x ∷ []) ≡ some x
  last-append [] x = refl
  last-append (y ∷ []) x = refl
  last-append (y ∷ z ∷ xs) x = last-append (z ∷ xs) x

  pub init-append : (xs : List A) (x : A) → init (xs ++ x ∷ []) ≡ xs
  init-append [] x = refl
  init-append (y ∷ []) x = refl
  init-append (y ∷ z ∷ xs) x = ap (◌∷◌ y) (init-append (z ∷ xs) x)

-- At the last index `swap_remove` pops.
swap_remove-append_last :
    (xs : List Stored) (x : Stored) → swap_remove (length xs) (xs ++ x ∷ []) ≡ ok (x, xs)
unfolding swap_remove
swap_remove-append_last xs x =
    ground (
      arith,
      get_elem?-append_last xs x,
      last-append xs x,
      set-append_last xs x x,
      init-append xs x,
    )

swap_remove-reverse :
    (m : Stored) (ms : List Stored)
    → swap_remove (length ms) (reverse (m ∷ ms)) ≡ ok (m, reverse ms)
swap_remove-reverse m ms =
    rw (reverse-cons m ms, ← length-reverse ms) (swap_remove-append_last (reverse ms) m)

-- The list, newest first, without its newest messages of instance `in_exec`.
abbrev pub older : SeqNo → List Stored → List Stored
older in_exec [] = []
older in_exec (m ∷ ms) = if m.message.seq == in_exec then older in_exec ms else m ∷ ms

-- The newest message of instance `in_exec` with the digest `v`, before any of another instance.
abbrev pub proposal : SeqNo → Option Digest → List Stored → Option Stored
proposal in_exec v [] = none
proposal in_exec none (m ∷ ms) = none
proposal in_exec (some v) (m ∷ ms) =
    if m.message.seq == in_exec
    then (if m.header.digest == v then some m else proposal in_exec (some v) ms)
    else none

remove_all-older :
    (in_exec : SeqNo) (ms : List Stored)
    → remove_all (scratch_indices in_exec ms) (reverse ms) ≡ ok (reverse (older in_exec ms))
unfolding remove_all scratch_indices
remove_all-older in_exec [] = refl
remove_all-older in_exec (m ∷ ms) = elim (Bool-cases (m.message.seq == in_exec)) [
  | inl e ↦ rw (e, remove_all, swap_remove-reverse m ms) (remove_all-older in_exec ms)
  | inr e ↦ rw e
]

pub clear_log-older :
    (in_exec : SeqNo) (log : List Stored)
    → clear_log in_exec log ≡ ok (reverse (older in_exec (reverse log)))
unfolding clear_log
clear_log-older in_exec log =
    subst
      (λ l.
        remove_all (scratch_indices in_exec (reverse log)) l
        ≡ ok (reverse (older in_exec (reverse log))))
      (reverse-reverse log) (remove_all-older in_exec (reverse log))

abbrev found_at : Option Stored → Option Stored → Option Stored
found_at none found = found
found_at (some m) found = some m

-- While the sought index is still ahead it is below the length of what is left.
find_digest-bound :
    (in_exec : SeqNo) (v : Digest) (ms : List Stored) (j : ℕ)
    → find_digest in_exec v ms ≡ some j
    → j < length ms
unfolding find_digest
find_digest-bound in_exec v [] j e = cc
find_digest-bound in_exec v (m ∷ ms) j e = ground (arith, find_digest-bound in_exec v ms j)

remove_with-found :
    (in_exec : SeqNo) (found : Option Stored) (ms : List Stored)
    → remove_with none found (scratch_indices in_exec ms) (reverse ms)
      ≡ ok (found, reverse (older in_exec ms))
unfolding remove_with scratch_indices
remove_with-found in_exec found [] = refl
remove_with-found in_exec found (m ∷ ms) = elim (Bool-cases (m.message.seq == in_exec)) [
  | inl e ↦ rw (e, remove_with, swap_remove-reverse m ms) (remove_with-found in_exec found ms)
  | inr e ↦ rw e
]

not_index :
    (in_exec : SeqNo) (v : Digest) (ms : List Stored)
    → is_index (find_digest in_exec v ms) (length ms) ≡ false
not_index in_exec v ms = elim (Option-cases (find_digest in_exec v ms)) [
  | inl e ↦ rw e
  | inr (j, e) ↦ rw e (ground (arith, find_digest-bound in_exec v ms j e))
]

remove_with-proposal :
    (in_exec : SeqNo) (v : Digest) (ms : List Stored)
    → remove_with (find_digest in_exec v ms) none (scratch_indices in_exec ms) (reverse ms)
      ≡ ok (proposal in_exec (some v) ms, reverse (older in_exec ms))
unfolding remove_with scratch_indices find_digest
remove_with-proposal in_exec v [] = refl
remove_with-proposal in_exec v (m ∷ ms) = elim (Bool-cases (m.message.seq == in_exec)) [
  | inl e ↦ elim (Bool-cases (m.header.digest == v)) [
    | inl d ↦
        rw (e, d, remove_with, swap_remove-reverse m ms, ==_refl (length ms))
          (remove_with-found in_exec (some m) ms)
    | inr d ↦
        rw (e, d, remove_with, swap_remove-reverse m ms, not_index in_exec v ms)
          (remove_with-proposal in_exec v ms)
  ]
  | inr e ↦ rw e
]

remove_with-value :
    (in_exec : SeqNo) (value : Option Digest) (ms : List Stored)
    → remove_with (find_value in_exec value ms) none (scratch_indices in_exec ms) (reverse ms)
      ≡ ok (proposal in_exec value ms, reverse (older in_exec ms))
unfolding find_value
remove_with-value in_exec none [] = remove_with-found in_exec none []
remove_with-value in_exec none (m ∷ ms) = remove_with-found in_exec none (m ∷ ms)
remove_with-value in_exec (some v) ms = remove_with-proposal in_exec v ms

-- What `clear_last_occurrences` leaves of a list.
abbrev pub cleared : SeqNo → List Stored → List Stored
cleared in_exec log = reverse (older in_exec (reverse log))

-- `clear_last_occurrences` never panics. It drops from each of the three lists the newest messages
-- that are of instance `in_exec`, keeps the others in their order, and hands out the newest dropped
-- `PRE-PREPARE` with the digest asked for, if one was asked for and is there.
pub clear_last_occurrences-cleared :
    (l : DecisionLog) (in_exec : SeqNo) (value : Option Digest)
    → clear_last_occurrences l in_exec value
      ≡ ok (
        proposal in_exec value (reverse l.pre_prepares),
        record l {
          pre_prepares = cleared in_exec l.pre_prepares;
          prepares = cleared in_exec l.prepares;
          commits = cleared in_exec l.commits;
        },
      )
unfolding clear_last_occurrences
clear_last_occurrences-cleared l in_exec value =
    let first =
      subst
        (λ ps.
          remove_with (find_value in_exec value (reverse l.pre_prepares)) none
            (scratch_indices in_exec (reverse l.pre_prepares)) ps
          ≡ ok (proposal in_exec value (reverse l.pre_prepares), cleared in_exec l.pre_prepares))
        (reverse-reverse l.pre_prepares)
        (remove_with-value in_exec value (reverse l.pre_prepares)) in
    rw (first, clear_log-older in_exec l.prepares, clear_log-older in_exec l.commits)
