-- ===== src/Replica/Bootstrap.antt =====
-- A new replica: `Replica::bootstrap` (bft/core/server/mod.rs), with the messages that its node
-- received while it was set up, which are an argument.
pub mod Kept
pub mod Ready
mod Tests
use bafomet.Base.{ℕ, Result, ok, panic, ◌>>=◌, List, [], ◌∷◌, ◌++◌}
use bafomet.Collections.{OrderedMap}
use bafomet.Crypto.{Hash}
use bafomet.Ordering.SeqNo.{SeqNo}
use bafomet.Message.{Header}
use bafomet.Message.System.{
  SystemMessage, request, reply, consensus, cst, view_change_msg, forwarded_requests,
}
use bafomet.Core.View as View
use bafomet.Consensus.Tbo as ConsensusTbo
use bafomet.Sync.Types.{StoredRequest}
use bafomet.Replica.Types.{
  Replica, Incoming, system, timeout, execution_finished, execution_finished_with_appstate,
  connected_tx, connected_rx, disconnected_tx, disconnected_rx, Updated, create,
}
use bafomet.Replica.Events.{request_received}

module _ {S O P : Type 0} {R : OrderedMap (StoredRequest O)} (H : Hash) (now : ℕ) where
  rogue_system : Replica S O R → Header → SystemMessage S O P → Updated S O P R
  rogue_system r h (request m) = ok (request_received H now r h m)
  rogue_system r h (consensus m) = ok (
    record r { consensus = record r.consensus { tbo = ConsensusTbo.queue r.consensus.tbo h m } },
    [],
  )
  rogue_system r h (reply _) = panic
  rogue_system r h (cst _) = panic
  rogue_system r h (view_change_msg _) = panic
  rogue_system r h (forwarded_requests _) = panic

  -- Messages other than those of the protocols are ignored.
  rogue_received : Replica S O R → Incoming S O P → Updated S O P R
  unfolding rogue_system
  rogue_received r (system h m) = rogue_system r h m
  rogue_received r (timeout _) = ok (r, [])
  rogue_received r (execution_finished _) = ok (r, [])
  rogue_received r (execution_finished_with_appstate _ _) = ok (r, [])
  rogue_received r (connected_tx _) = ok (r, [])
  rogue_received r (connected_rx _) = ok (r, [])
  rogue_received r (disconnected_tx _) = ok (r, [])
  rogue_received r (disconnected_rx _) = ok (r, [])

  unfoldable pub all_received : Replica S O R → List (Incoming S O P) → Updated S O P R
  unfolding rogue_received
  all_received r [] = ok (r, [])
  all_received r (m ∷ ms) = do
    first ← rogue_received r m
    rest ← all_received first.0 ms
    ok (rest.0, first.1 ++ rest.1)

  -- A view of `n` nodes of which `f` may be faulty, and the first number of the consensus.
  unfoldable pub bootstrap : SeqNo → ℕ → ℕ → SeqNo → ℕ → List (Incoming S O P) → Updated S O P R
  unfolding all_received
  bootstrap seq n f next_consensus_seq batch_size rogue = do
    view ← View.create seq n f
    all_received (create view next_consensus_seq batch_size) rogue
