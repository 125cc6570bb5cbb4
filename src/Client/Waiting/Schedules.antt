-- ===== src/Client/Waiting/Schedules.antt =====
-- The orders in which a task and the receiver of replies can take their steps
-- (bft/core/client/mod.rs).
use bafomet.Base.{
  ℕ, ◌⊎◌, ◌++◌, map, Option, none, some, List, [], ◌∷◌, All, get, ◌≡◌, ◌≢◌, refl, arith, get-insert,
}
use bafomet.Message.{Digest}
use bafomet.Client.Waiting.{ClientData, take_ready, register_waker, register_response, wake_task}

-- The two steps of a `poll`, and the two of the delivery of a payload.
pub data Step : Type 0 where
  check register respond wake : Step

-- What `poll` has returned, if it is ready, and the data that are shared.
pub record Run (P : Type 0) : Type 0 where
  pub taken : Option P
  pub shared : ClientData P

-- The ways of taking the steps of two tasks, each in its own order.
abbrev pub merges : List Step → List Step → List (List Step)
merges [] ys = ys ∷ []
merges (x ∷ xs) [] = (x ∷ xs) ∷ []
merges (x ∷ xs) (y ∷ ys) =
    map (λ s. x ∷ s) (merges xs (y ∷ ys)) ++ map (λ s. y ∷ s) (merges (x ∷ xs) ys)

abbrev pub lost_order : List Step
lost_order = check ∷ respond ∷ wake ∷ register ∷ []

module _ {P : Type 0} (digest : Digest) (waker : ℕ) (payload : P) where
  -- A `poll` that has taken the payload does not register.
  abbrev pub take_step : Step → Run P → Run P
  take_step check r = let t = take_ready digest r.shared in record { taken = t.0; shared = t.1 }
  take_step register r = elim r.taken [
    | none ↦ record r { shared = register_waker digest waker r.shared }
    | some _ ↦ r
  ]
  take_step respond r = record r { shared = register_response digest payload r.shared }
  take_step wake r = record r { shared = wake_task digest r.shared }

  abbrev pub run : List Step → Run P → Run P
  run [] r = r
  run (s ∷ ss) r = run ss (take_step s r)

  -- The task has the payload, or it was woken and finds the payload.
  abbrev pub IsServed : ClientData P → Run P → Type 0
  IsServed d r =
      (r.taken ≡ some payload)
      ⊎ (r.shared.woken ≡ waker ∷ d.woken) × (get digest r.shared.ready ≡ some payload)

  -- The payload is there and the task waits, but nobody will wake it.
  abbrev pub IsLost : ClientData P → Run P → Type 0
  IsLost d r =
      (r.taken ≡ none)
      × (get digest r.shared.ready ≡ some payload)
      × (get digest r.shared.wakers ≡ some waker)
      × (r.shared.woken ≡ d.woken)

  -- The first `poll` of a task is run beside the delivery of its payload. If the payload is delivered
  -- between the two steps of `poll`, the task waits for a payload that is there, and nobody will wake
  -- it. In every other order of the steps the task has the payload, or it was woken and finds it.
  pub run-merges :
      (d : ClientData P)
      → get digest d.ready ≡ none
      → get digest d.wakers ≡ none
      → IsLost d (run lost_order (record { taken = none; shared = d }))
        × All
            (λ s. s ≢ lost_order → IsServed d (run s (record { taken = none; shared = d })))
            (merges (check ∷ register ∷ []) (respond ∷ wake ∷ []))
  unfolding take_ready register_waker register_response wake_task
  run-merges d e f =
      let ready = get-insert digest digest payload d.ready in
      let waiting = get-insert digest digest waker d.wakers in
      (
        ground (arith, e, f, ready, waiting),
        (
          λ _. ground (arith, e, f, ready, waiting),
          (
            λ _. ground (arith, e, f, ready, waiting),
            (
              λ ne. absurd (ne refl),
              (
                λ _. ground (arith, e, f, ready, waiting),
                (
                  λ _. ground (arith, e, f, ready, waiting),
                  (λ _. ground (arith, e, f, ready, waiting), tt),
                ),
              ),
            ),
          ),
        ),
      )
