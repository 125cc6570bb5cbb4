-- ===== src/Executable/Tests.antt =====
-- A counter executes batches.
use bafomet.Base.{ℕ, ◌+◌, some, ok, List, [], ◌∷◌, ◌≡◌, refl}
use bafomet.Executable.{
  Update, UpdateReply, UpdateBatch, update_batch, update_and_get_appstate, execution_finished,
  execution_finished_with_appstate, replay, execute, step,
}
use bafomet.Executable.Replies.{operations, Answers, step-Answers}

-- The operation is added, the reply is the state before, and the service counts its calls.
abbrev count : ℕ × ℕ → ℕ → (ℕ × ℕ) × ℕ
count (calls, state) op = ((calls + 1, state + op), state)

abbrev update : ℕ → Update ℕ
update op = record { from = 1000; digest = op; operation = op }

abbrev first : UpdateBatch ℕ
first = update 3 ∷ update 4 ∷ []

abbrev second : UpdateBatch ℕ
second = update 5 ∷ []

step-Answers_example :
    (rs : List (UpdateReply ℕ)) × (step count (0, 10) (update_batch first)
      ≡ ok (replay count (0, 10) (operations first), some (execution_finished rs)))
    × (step count (0, 10) (update_and_get_appstate first)
        ≡ ok (
          replay count (0, 10) (operations first),
          some (execution_finished_with_appstate rs (replay count (0, 10) (operations first)).1),
        ))
    × Answers count (0, 10) first rs
step-Answers_example = step-Answers count (0, 10) first

abbrev reply : ℕ → ℕ → UpdateReply ℕ
reply op payload = record { to = 1000; digest = op; payload = payload }

step-first :
    step count (0, 10) (update_batch first)
    ≡ ok ((2, 17), some (execution_finished (reply 3 10 ∷ reply 4 13 ∷ [])))
unfolding step execute
step-first = refl

step-second :
    step count (2, 17) (update_batch second)
    ≡ ok ((3, 22), some (execution_finished (reply 5 17 ∷ [])))
unfolding step execute
step-second = refl
