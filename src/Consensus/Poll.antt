-- ===== src/Consensus/Poll.antt =====
-- `Consensus::poll` (bft/consensus/mod.rs).
pub mod Valid
pub mod Missing
use bafomet.Base.{
  ℕ, suc, ◌+◌, Bool, true, false, ltb, if◌then◌else◌, is_empty, Option, none, some, List, [], ◌∷◌,
  ◌++◌, length, set, last,
}
use bafomet.Base
use bafomet.Ordering.Queue.{tbo_pop_message}
use bafomet.Message.{Digest, Header, StoredMessage, ConsensusMessage}
use bafomet.Consensus.Tbo.{Queues}
use bafomet.Consensus.State.{
  ProtoPhase, init, pre_preparing, preparing_requests, preparing, committing, Consensus,
}

pub data ConsensusPollStatus : Type 0 where
  recv : ConsensusPollStatus
  try_propose_and_recv : ConsensusPollStatus
  next_message : Header → ConsensusMessage → ConsensusPollStatus

-- `VecDeque::swap_remove_back`: nothing happens beyond the end.
unfoldable pub swap_remove_back : ℕ → List Digest → List Digest
swap_remove_back i xs =
    if ltb i (length xs) then elim (last xs) [ none ↦ xs | some y ↦ Base.init (set xs i y) ] else xs

-- The indices, from `i` on, of the requests that the log has by now.
unfoldable pub available_indices : (Digest → Bool) → ℕ → List Digest → List ℕ
available_indices has i [] = []
available_indices has i (d ∷ ds) =
    let rest = available_indices has (i + 1) ds in if has d then i ∷ rest else rest

-- `for index in self.missing_swapbuf.drain(..)`.
unfoldable pub remove_indices : List ℕ → List Digest → List Digest
remove_indices [] xs = xs
remove_indices (i ∷ is) xs = remove_indices is (swap_remove_back i xs)

with_pre_prepares : Consensus → Queues → Consensus
with_pre_prepares c q = record c { tbo = record c.tbo { pre_prepares = q } }

with_prepares : Consensus → Queues → Consensus
with_prepares c q = record c { tbo = record c.tbo { prepares = q } }

with_commits : Consensus → Queues → Consensus
with_commits c q = record c { tbo = record c.tbo { commits = q } }

-- The macro `extract_msg`, once the queue was popped: with a message it moves to the phase given,
-- and without one it stops looking into the queue.
unfoldable pub extract :
    Option (StoredMessage ConsensusMessage)
    → Consensus
    → ConsensusPollStatus
    → ProtoPhase
    → ConsensusPollStatus × Consensus
extract none c rsp phase = (rsp, record c { tbo = record c.tbo { get_queue = false } })
extract (some m) c rsp phase = (next_message m.header m.message, record c { phase = phase })

-- The requests that are missing still, after a pass over those that the log has.
unfoldable pub remove_available : (Digest → Bool) → List Digest → List Digest
remove_available has ds = remove_indices (available_indices has 0 ds) ds

module _ (has_request : Digest → Bool) (c : Consensus) where
  poll_phase : ProtoPhase → ConsensusPollStatus × Consensus
  poll_phase init =
      let r = tbo_pop_message c.tbo.pre_prepares in
      if c.tbo.get_queue
      then extract r.0 (with_pre_prepares c r.1) try_propose_and_recv pre_preparing
      else (try_propose_and_recv, c)
  poll_phase pre_preparing =
      let r = tbo_pop_message c.tbo.pre_prepares in
      if c.tbo.get_queue
      then extract r.0 (with_pre_prepares c r.1) recv pre_preparing
      else (recv, c)
  poll_phase preparing_requests =
      let c' = record c { missing_requests = remove_available has_request c.missing_requests } in
      let r = tbo_pop_message c.tbo.prepares in
      if is_empty c'.missing_requests
      then extract r.0 (with_prepares c' r.1) recv (preparing 1)
      else (recv, c')
  poll_phase (preparing i) =
      let r = tbo_pop_message c.tbo.prepares in
      if c.tbo.get_queue then extract r.0 (with_prepares c r.1) recv (preparing i) else (recv, c)
  poll_phase (committing i) =
      let r = tbo_pop_message c.tbo.commits in
      if c.tbo.get_queue then extract r.0 (with_commits c r.1) recv (committing i) else (recv, c)

-- `poll`, of a log that has the requests `has_request`.
unfoldable pub poll : (Digest → Bool) → Consensus → ConsensusPollStatus × Consensus
unfolding poll_phase with_pre_prepares with_prepares with_commits extract
poll has_request c = poll_phase has_request c c.phase
