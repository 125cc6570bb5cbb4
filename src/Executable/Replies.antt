-- ===== src/Executable/Replies.antt =====
-- Every request of a batch is executed once, in order, and answered to its sender
-- (bft/executable/mod.rs).
use mathlib.Core.List.{append_assoc, append-nil, map-append}
use bafomet.Base.{ℕ, Option, none, some, List, [], ◌∷◌, ◌++◌, map, ok, ◌≡◌, refl, sym, ◌∙◌, arith}
use bafomet.Executable.{
  Update, UpdateReply, UpdateBatch, install_state, update_batch, update_and_get_appstate,
  execution_finished_with_appstate, execution_finished, replay, execute, step, ExecutionMessage,
}

-- The operations of a batch, and whom a list of updates or replies concerns.
abbrev pub operations : {O : Type 0} → List (Update O) → List O
operations = map (λ u. u.operation)

abbrev pub senders : {O : Type 0} → List (Update O) → List (ℕ × ℕ)
senders = map (λ u. (u.from, u.digest))

abbrev pub receivers : {P : Type 0} → List (UpdateReply P) → List (ℕ × ℕ)
receivers = map (λ r. (r.to, r.digest))

module _ {V S O P : Type 0} (update : V × S → O → (V × S) × P) where
  -- The payloads that the operations give, one after the other.
  abbrev pub payloads : V × S → List O → List P
  payloads state [] = []
  payloads state (op ∷ ops) = (update state op).1 ∷ payloads (update state op).0 ops

  execute-state :
      (state : V × S) (replies : List (UpdateReply P)) (us : List (Update O))
      → (execute update state replies us).0 ≡ replay update state (operations us)
  unfolding execute replay
  execute-state state replies [] = refl
  execute-state state replies (u ∷ us) = execute-state (update state u.operation).0 _ us

  execute-receivers :
      (state : V × S) (replies : List (UpdateReply P)) (us : List (Update O))
      → receivers (execute update state replies us).1 ≡ receivers replies ++ senders us
  unfolding execute
  execute-receivers state replies [] = sym (append-nil (receivers replies))
  execute-receivers state replies (u ∷ us) =
      execute-receivers (update state u.operation).0 _ us ∙ simp (map-append, append_assoc)

  execute-payloads :
      (state : V × S) (replies : List (UpdateReply P)) (us : List (Update O))
      → map (λ r. r.payload) (execute update state replies us).1
        ≡ map (λ r. r.payload) replies ++ payloads state (operations us)
  unfolding execute
  execute-payloads state replies [] = sym (append-nil (map (λ r. r.payload) replies))
  execute-payloads state replies (u ∷ us) =
      execute-payloads (update state u.operation).0 _ us ∙ simp (map-append, append_assoc)

  -- What a batch must give: the replies go to the senders of the requests, in order and with their
  -- digests, and carry the payloads of executing the operations one after the other.
  abbrev pub Answers : V × S → UpdateBatch O → List (UpdateReply P) → Type 0
  Answers state batch rs =
      (receivers rs ≡ senders batch) × (map (λ r. r.payload) rs ≡ payloads state (operations batch))

  -- Either way of executing a batch reaches the state of replaying its operations in order, and
  -- sends one message with the answers to the batch; the second also sends the state reached.
  pub step-Answers :
      (state : V × S) (batch : UpdateBatch O)
      → (rs : List (UpdateReply P)) × (step update state (update_batch batch)
          ≡ ok (replay update state (operations batch), some (execution_finished rs)))
        × (step update state (update_and_get_appstate batch)
            ≡ ok (
              replay update state (operations batch),
              some (execution_finished_with_appstate rs (replay update state (operations batch)).1),
            ))
        × Answers state batch rs
  unfolding step
  step-Answers state batch =
      let e = execute-state state [] batch in
      (
        (execute update state [] batch).1,
        rw e,
        rw e,
        (execute-receivers state [] batch, execute-payloads state [] batch),
      )

  replay-append :
      (state : V × S) (xs ys : List O)
      → replay update state (xs ++ ys) ≡ replay update (replay update state xs) ys
  unfolding replay
  replay-append state [] ys = refl
  replay-append state (x ∷ xs) ys = replay-append (update state x).0 xs ys

  -- A replica that installs a checkpoint with the operations of two batches, as in a state
  -- transfer, reaches the state of the replica that executed the batches from that checkpoint, if their
  -- services were in the same state.
  pub step-install_state :
      (v : V) (old checkpoint : S) (a b : UpdateBatch O) (s : V × S)
      (m n : Option (ExecutionMessage S P)) (t : V × S)
      → step update (v, checkpoint) (update_batch a) ≡ ok (s, m)
      → step update s (update_batch b) ≡ ok (t, n)
      → step update (v, old) (install_state checkpoint (operations a ++ operations b))
        ≡ ok (t, none)
  unfolding step
  step-install_state v old checkpoint a b s m n t ea eb = ground (
    arith,
    execute-state (v, checkpoint) [] a,
    execute-state s [] b,
    replay-append (v, checkpoint) (operations a) (operations b),
  )
