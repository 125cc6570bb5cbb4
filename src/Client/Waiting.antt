-- ===== src/Client/Waiting.antt =====
-- How a client's task waits for the payload of its request: `ClientData`, `ClientRequestFut::poll`
-- and the end of `message_recv_task` (bft/core/client/mod.rs). Each step holds one of the two locks,
-- and the steps of different tasks may come between each other.
pub mod Schedules
use bafomet.Base.{ℕ, Option, none, some, List, [], ◌∷◌, HashMap, get, insert, remove}
use bafomet.Message.{Digest}

-- A waker is known by its task; `woken` are the tasks that were woken.
pub record ClientData (P : Type 0) : Type 0 where
  pub wakers : HashMap ℕ
  pub ready : HashMap P
  pub woken : List ℕ

module _ {P : Type 0} where
  -- The first part of `poll`: the payload, if it is there, is taken.
  unfoldable pub take_ready : Digest → ClientData P → Option P × ClientData P
  take_ready digest d = elim (get digest d.ready) [
    | some payload ↦ (some payload, record d { ready = remove digest d.ready })
    | none ↦ (none, d)
  ]

  -- The second part, for `Poll::Pending`.
  unfoldable pub register_waker : Digest → ℕ → ClientData P → ClientData P
  register_waker digest waker d = record d { wakers = insert digest waker d.wakers }

  -- `register response`
  unfoldable pub register_response : Digest → P → ClientData P → ClientData P
  register_response digest payload d = record d { ready = insert digest payload d.ready }

  -- `try to wake up a waiting task`
  unfoldable pub wake_task : Digest → ClientData P → ClientData P
  wake_task digest d = elim (get digest d.wakers) [
    | some waker ↦ record d { wakers = remove digest d.wakers; woken = waker ∷ d.woken }
    | none ↦ d
  ]
