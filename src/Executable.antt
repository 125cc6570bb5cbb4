-- ===== src/Executable.antt =====
-- bft/executable/mod.rs: the batches of client requests, and the thread that executes them. The
-- service is the application's: a parameter.
pub mod Replies
mod Tests
use bafomet.Base.{ℕ, Option, none, some, List, [], ◌∷◌, ◌++◌, Result, panic, ok, length}
use bafomet.Message.{NodeId, Digest}

pub record Update (O : Type 0) : Type 0 where
  pub from : NodeId
  pub digest : Digest
  pub operation : O

pub record UpdateReply (P : Type 0) : Type 0 where
  pub to : NodeId
  pub digest : Digest
  pub payload : P

-- `UpdateBatch` and `UpdateBatchReplies` are the vectors in them.
abbrev pub UpdateBatch : Type 0 → Type 0
UpdateBatch O = List (Update O)

abbrev pub UpdateBatchReplies : Type 0 → Type 0
UpdateBatchReplies P = List (UpdateReply P)

-- `UpdateBatch::add` and `UpdateBatchReplies::add`.
abbrev pub add_update : {O : Type 0} → UpdateBatch O → NodeId → Digest → O → UpdateBatch O
add_update batch from digest operation =
    batch ++ record { from = from; digest = digest; operation = operation } ∷ []

abbrev pub add_reply :
    {P : Type 0} → UpdateBatchReplies P → NodeId → Digest → P → UpdateBatchReplies P
add_reply batch to digest payload =
    batch ++ record { to = to; digest = digest; payload = payload } ∷ []

pub data ExecutionRequest (S O : Type 0) : Type 0 where
  install_state : S → List O → ExecutionRequest S O
  update_batch : UpdateBatch O → ExecutionRequest S O
  update_and_get_appstate : UpdateBatch O → ExecutionRequest S O
  read : NodeId → ExecutionRequest S O

-- The two messages that the executor sends to its replica.
pub data ExecutionMessage (S P : Type 0) : Type 0 where
  execution_finished : UpdateBatchReplies P → ExecutionMessage S P
  execution_finished_with_appstate : UpdateBatchReplies P → S → ExecutionMessage S P

-- `Service::update`, on the state of the service and that of the application: the states that it
-- leaves, and its reply.
module _ {V S O P : Type 0} (update : V × S → O → (V × S) × P) where
  -- Replaying operations, their replies dropped.
  unfoldable pub replay : V × S → List O → V × S
  replay state [] = state
  replay state (op ∷ ops) = replay (update state op).0 ops

  unfoldable pub execute :
      V × S → UpdateBatchReplies P → UpdateBatch O → (V × S) × UpdateBatchReplies P
  execute state replies [] = (state, replies)
  execute state replies (u ∷ us) =
      let r = update state u.operation in execute r.0 (add_reply replies u.from u.digest r.1) us

  -- One turn of the executor's loop: its service and its state, and the message that is sent. `read`
  -- is a `todo!`.
  unfoldable pub step :
      V × S → ExecutionRequest S O → Result ((V × S) × Option (ExecutionMessage S P))
  unfolding replay execute
  step (service, state) (install_state checkpoint after) =
      ok (replay (service, checkpoint) after, none)
  step (service, state) (update_batch batch) =
      let r = execute (service, state) [] batch in ok (r.0, some (execution_finished r.1))
  step (service, state) (update_and_get_appstate batch) =
      let r = execute (service, state) [] batch in
      ok (r.0, some (execution_finished_with_appstate r.1 r.0.1))
  step (service, state) (read peer) = panic
