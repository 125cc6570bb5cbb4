-- ===== src/Log/Tests.antt =====
-- The log of a replica with two requests, and its checkpoints.
use bafomet.Base.{
  All, true, length, ℕ, ◌+◌, if◌then◌else◌, inl, some, ok, List, [], ◌∷◌, ◌++◌, map, All, get,
  insert, remove, contains_key, keys, ◌≡◌, refl,
}
use bafomet.Collections.{assoc_map, pop_front_assoc}
use bafomet.Crypto.{Hash, unique_digest, entropy, to_le_bytes}
use bafomet.Message.{Digest, Header, RequestMessage}
use bafomet.Message.System.{RecoveryState}
use bafomet.Log.Types.{nil, begin_checkpoint, partial, empty_declog}
use bafomet.Log.Store.{
  has_request, StoredRequest, Log, create, insert_request, next_batch, find_request, take_request,
}
use bafomet.Log.Store.Requests.{
  Took, IsDisjoint, insert_request-IsDisjoint, find_request-next_batch,
}
use bafomet.Log.Finalize.{checkpoint_due, collect_batch, last_seq_no, finish_batch, finalize_batch}
use bafomet.Log.Finalize.Collect.{IsFrom}
use bafomet.Log.Finalize.Batch.{finalize_batch-ok}
use bafomet.Executable.{UpdateBatch}

abbrev TestLog : Type 0
TestLog = Log ℕ ℕ (assoc_map (StoredRequest ℕ))

abbrev sum : List ℕ → ℕ
sum [] = 0
sum (x ∷ xs) = x + sum xs

-- The sum of the bytes, in place of a hash.
abbrev sums : Hash
sums = record { hash = sum; as_ref = λ d. d ∷ [] }

abbrev header : ℕ → Header
header nonce = record {
  version = 0;
  from = 1000;
  to = 0;
  nonce = nonce;
  length = 0;
  digest = 4;
  signature = 0;
}

abbrev operation : ℕ → RequestMessage ℕ
operation n = record { operation = n }

abbrev empty_log : TestLog
empty_log = create 1

abbrev one_request : TestLog
one_request = insert_request sums empty_log (header 1) (operation 11)

abbrev two_requests : TestLog
two_requests = insert_request sums one_request (header 2) (operation 22)

empty_log-IsDisjoint : IsDisjoint empty_log
unfolding create get
empty_log-IsDisjoint d = inl refl

two_requests-IsDisjoint : IsDisjoint two_requests
two_requests-IsDisjoint =
    insert_request-IsDisjoint sums one_request (header 2) (operation 22)
      (insert_request-IsDisjoint sums empty_log (header 1) (operation 11) empty_log-IsDisjoint)

digest-two : unique_digest sums (header 2) ≡ 6
unfolding unique_digest entropy to_le_bytes
digest-two = refl

find_request-next_batch_example :
    Took two_requests (next_batch two_requests)
    × ((ds : List Digest)
        → (next_batch two_requests).0 ≡ some ds
        → (length ds ≡ 1) × All (λ d. has_request (next_batch two_requests).1 d ≡ true) ds)
    × ((d : Digest) → find_request (next_batch two_requests).1 d ≡ find_request two_requests d)
unfolding insert_request create
find_request-next_batch_example = find_request-next_batch two_requests two_requests-IsDisjoint

next_batch-two : (next_batch two_requests).0 ≡ some (5 ∷ [])
unfolding next_batch insert_request create unique_digest entropy to_le_bytes assoc_map
    pop_front_assoc insert remove keys get
next_batch-two = refl

abbrev batch : UpdateBatch ℕ
batch = record { from = 1000; digest = 6; operation = 22 } ∷ []

finalize_batch-two : (finalize_batch two_requests 0 (6 ∷ [])).0 ≡ ok (nil, batch)
unfolding finalize_batch collect_batch finish_batch checkpoint_due last_seq_no find_request
    take_request insert_request create unique_digest entropy to_le_bytes assoc_map insert remove get
    contains_key
finalize_batch-two = refl

finalize_batch-ok_example :
    (map (λ u. u.digest) batch ≡ 6 ∷ [])
    × All (IsFrom two_requests) batch
    × ((finalize_batch two_requests 0 (6 ∷ [])).1.decided ≡ two_requests.decided ++ 22 ∷ [])
    × ((finalize_batch two_requests 0 (6 ∷ [])).1.declog
        ≡ record two_requests.declog { last_exec = some 0 })
    × (nil ≡ (if checkpoint_due (last_seq_no two_requests) then begin_checkpoint else nil))
finalize_batch-ok_example =
    finalize_batch-ok two_requests 0 (6 ∷ []) nil batch two_requests-IsDisjoint finalize_batch-two

abbrev recovery : RecoveryState ℕ ℕ
recovery = record {
  view = record { seq = 3; params = record { n = 4; f = 1 } };
  checkpoint = record { seq = 100; appstate = 55 };
  requests = 11 ∷ 22 ∷ [];
  declog = empty_declog;
}

abbrev begun : TestLog
begun = record two_requests { decided = 11 ∷ []; checkpoint = partial 150 }
