-- ===== src/Log/Clear.antt =====
-- `DecisionLog::clear_last_occurrences` (bft/consensus/log/mod.rs), index by index.
pub mod Suffix
mod Tests
use bafomet.Base.{
  ℕ, zero, suc, ◌-◌, Bool, false, ◌==◌, if◌then◌else◌, is_some, Option, none, some, Result, ok,
  panic, ◌>>=◌, List, [], ◌∷◌, length, set, init, last, get_elem?, reverse,
}
use bafomet.Ordering.SeqNo.{SeqNo}
use bafomet.Message.{Digest}
use bafomet.Log.Types.{DecisionLog}
use bafomet.Log.Decision.{Stored}

-- `Vec::swap_remove`: the last element takes the place of the one that is removed.
unfoldable pub swap_remove : ℕ → List Stored → Result (Stored × List Stored)
swap_remove i xs = elim (get_elem? xs i) [
  | none ↦ panic
  | some x ↦ elim (last xs) [ none ↦ panic | some y ↦ ok (x, init (set xs i y)) ]
]

-- The indices of the newest messages, as long as these are of instance `in_exec`; the argument is
-- the list from its newest message, so the index of its head is the length of its tail.
unfoldable pub scratch_indices : SeqNo → List Stored → List ℕ
scratch_indices in_exec [] = []
scratch_indices in_exec (m ∷ ms) =
    if m.message.seq == in_exec then length ms ∷ scratch_indices in_exec ms else []

-- `log.swap_remove(i)` for each index.
unfoldable pub remove_all : List ℕ → List Stored → Result (List Stored)
remove_all [] log = ok log
remove_all (i ∷ is) log = swap_remove i log >>= λ r. remove_all is r.1

unfoldable pub clear_log : SeqNo → List Stored → Result (List Stored)
clear_log in_exec log = remove_all (scratch_indices in_exec (reverse log)) log

-- The index of the newest `PRE-PREPARE` among those with the digest `v`.
unfoldable pub find_digest : SeqNo → Digest → List Stored → Option ℕ
find_digest in_exec v [] = none
find_digest in_exec v (m ∷ ms) =
    let rest = find_digest in_exec v ms in
    if m.message.seq == in_exec
    then (if m.header.digest == v then some (length ms) else rest)
    else none

-- `pre_prepare_i`.
unfoldable pub find_value : SeqNo → Option Digest → List Stored → Option ℕ
find_value in_exec none ms = none
find_value in_exec (some v) ms = find_digest in_exec v ms

abbrev is_index : Option ℕ → ℕ → Bool
is_index none i = false
is_index (some j) i = i == j

-- As `remove_all`, and the message at the index that was found is handed out.
unfoldable pub remove_with :
    Option ℕ → Option Stored → List ℕ → List Stored → Result (Option Stored × List Stored)
remove_with j found [] log = ok (found, log)
remove_with j found (i ∷ is) log = swap_remove i log >>= λ r.
    if is_index j i then remove_with none (some r.0) is r.1 else remove_with j found is r.1

unfoldable pub clear_last_occurrences :
    DecisionLog → SeqNo → Option Digest → Result (Option Stored × DecisionLog)
unfolding find_value find_digest scratch_indices
clear_last_occurrences l in_exec value = do
  let newest = reverse l.pre_prepares
  (found, ps) ←
      remove_with (find_value in_exec value newest) none (scratch_indices in_exec newest)
        l.pre_prepares
  prepares ← clear_log in_exec l.prepares
  commits ← clear_log in_exec l.commits
  ok (found, record l { pre_prepares = ps; prepares = prepares; commits = commits })
