-- ===== src/Network/Connect/Retries.antt =====
-- How often a task tries to connect (bft/communication/mod.rs).
use bafomet.Base.{ℕ, zero, suc, ◌+◌, ◌<◌, ◌≤◌, none, some, ok, ◌≡◌, ◌⊎◌, inl, inr, refl, arith}
use bafomet.Crypto.{Hash}
use bafomet.Message.{NodeId}
use bafomet.Message.Wire.{Signing}
use bafomet.Message.Framing.{AsyncWrite}
use bafomet.Network.Types.{Address}
use bafomet.Network.Connect.{
  Dialer, not_dialed, ConnectTask, greet, attempt, attempts, retry, tx_side_connect_task,
}

module _ (H : Hash) (G : Signing) (A : AsyncWrite) (C : Dialer A) where
  -- No attempt before the one numbered `k` connects.
  abbrev pub Refused : Address → ℕ → Type 0
  Refused addr k = (j : ℕ) → j < k → C.connect addr j ≡ none

  attempts_first :
      (my_id : NodeId) (task : ConnectTask) (left at k : ℕ) (stream : C.Stream)
      → Refused task.addr k
      → C.connect task.addr k ≡ some stream
      → at ≤ k
      → k < at + left
      → attempts H G A C my_id task left at
        ≡ greet H G A C my_id task.peer_id task.nonce (C.handshake task.addr stream)
  unfolding attempts attempt
  attempts_first my_id task zero at k stream before there above below = absurd (omega arith)
  attempts_first my_id task (suc left) at k stream before there above below =
      let here_or_later : (at ≡ k) ⊎ (suc at ≤ k) = omega arith in
      elim here_or_later [
        | inl here ↦ rw (here, there) refl
        | inr later ↦
            rw (before at later)
              (attempts_first my_id task left (suc at) k stream before there later (omega arith))
      ]

  attempts-Refused :
      (my_id : NodeId) (task : ConnectTask) (left at : ℕ)
      → Refused task.addr (at + left)
      → attempts H G A C my_id task left at ≡ ok not_dialed
  unfolding attempts attempt
  attempts-Refused my_id task zero at refused = refl
  attempts-Refused my_id task (suc left) at refused =
      rw (refused at (omega arith))
        (attempts-Refused my_id task left (suc at) (λ j h. refused j (omega (arith, h))))

  -- A task connects at the first of its 180 attempts that is not refused, whatever comes of the
  -- handshake and of the greeting: it does not try again. If all are refused, it gives up.
  pub tx_side_connect_task-first :
      (my_id : NodeId) (task : ConnectTask)
      → (Refused task.addr retry → tx_side_connect_task H G A C my_id task ≡ ok not_dialed)
        × ((k : ℕ) (stream : C.Stream)
            → k < retry
            → Refused task.addr k
            → C.connect task.addr k ≡ some stream
            → tx_side_connect_task H G A C my_id task
              ≡ greet H G A C my_id task.peer_id task.nonce (C.handshake task.addr stream))
  unfolding tx_side_connect_task
  tx_side_connect_task-first my_id task = (
    attempts-Refused my_id task retry 0,
    λ k stream below before there.
        attempts_first my_id task retry 0 k stream before there (omega arith) below,
  )
