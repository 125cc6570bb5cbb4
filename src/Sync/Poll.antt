-- ===== src/Sync/Poll.antt =====
-- `Synchronizer::poll` (bft/sync/mod.rs), with its macro.
pub mod Kept
use bafomet.Base.{false, not, if◌then◌else◌, Option, none, some}
use bafomet.Ordering.Queue.{tbo_pop_message}
use bafomet.Sync.Types.{
  StoredChange, ProtoPhase, init, stopping, stopping2, stopping_data, syncing, syncing_state,
  SynchronizerPollStatus, recv, next_message, resume_view_change, Queues, Synchronizer,
}

module _ {O : Type 0} where
  -- The macro `extract_msg`, once the queue was popped.
  extract :
      Option (StoredChange O)
      → Synchronizer O
      → ProtoPhase
      → SynchronizerPollStatus O × Synchronizer O
  extract none s phase = (recv, record s { tbo = record s.tbo { get_queue = false } })
  extract (some m) s phase = (next_message m.header m.message, record s { phase = phase })

  with_stops : Synchronizer O → Queues O → Synchronizer O
  with_stops s q = record s { tbo = record s.tbo { stops = q } }

  with_stop_datas : Synchronizer O → Queues O → Synchronizer O
  with_stop_datas s q = record s { tbo = record s.tbo { stop_datas = q } }

  with_syncs : Synchronizer O → Queues O → Synchronizer O
  with_syncs s q = record s { tbo = record s.tbo { syncs = q } }

  poll_phase : Synchronizer O → ProtoPhase → SynchronizerPollStatus O × Synchronizer O
  unfolding extract with_stops with_stop_datas with_syncs
  poll_phase s init =
      let r = tbo_pop_message s.tbo.stops in extract r.0 (with_stops s r.1) (stopping 0)
  poll_phase s (stopping i) =
      let r = tbo_pop_message s.tbo.stops in extract r.0 (with_stops s r.1) (stopping i)
  poll_phase s (stopping2 i) =
      let r = tbo_pop_message s.tbo.stops in extract r.0 (with_stops s r.1) (stopping2 i)
  poll_phase s (stopping_data i) =
      let r = tbo_pop_message s.tbo.stop_datas in
      extract r.0 (with_stop_datas s r.1) (stopping_data i)
  poll_phase s syncing =
      let r = tbo_pop_message s.tbo.syncs in extract r.0 (with_syncs s r.1) syncing
  poll_phase s syncing_state = (resume_view_change, s)

  unfoldable pub poll : Synchronizer O → SynchronizerPollStatus O × Synchronizer O
  unfolding poll_phase
  poll s = if not s.tbo.get_queue then (recv, s) else poll_phase s s.phase
