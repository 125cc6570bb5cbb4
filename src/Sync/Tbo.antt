-- ===== src/Sync/Tbo.antt =====
-- `TboQueue` (bft/sync/mod.rs): the view change messages that arrive early.
use bafomet.Base.{Bool, true, false, [], ◌∷◌}
use bafomet.Ordering.SeqNo.{next}
use bafomet.Ordering.Queue.{tbo_queue_message, tbo_advance_message_queue}
use bafomet.Message.{Header}
use bafomet.Message.System.{ViewChangeMessage, ViewChangeMessageKind, stop, stop_data, sync}
use bafomet.Core.View.{ViewInfo}
use bafomet.Sync.Types.{TboQueue, Queues, kind_of, view_change_orderable}

module _ {O : Type 0} where
  unfoldable pub create : ViewInfo → TboQueue O
  create view = record { view = view; get_queue = false; stops = []; stop_datas = []; syncs = [] }

  unfoldable pub signal : TboQueue O → TboQueue O
  signal t = record t { get_queue = true }

  unfoldable pub next_instance_queue : TboQueue O → TboQueue O
  next_instance_queue t = record t {
    stops = tbo_advance_message_queue t.stops;
    stop_datas = tbo_advance_message_queue t.stop_datas;
    syncs = tbo_advance_message_queue t.syncs;
  }

  -- Messages for the view after the current one.
  unfoldable pub queue_stop : TboQueue O → Header → ViewChangeMessage O → TboQueue O
  queue_stop t h m = record t {
    stops = tbo_queue_message (next t.view.seq) t.stops (record { header = h; message = m });
  }

  unfoldable pub queue_stop_data : TboQueue O → Header → ViewChangeMessage O → TboQueue O
  queue_stop_data t h m = record t {
    stop_datas = tbo_queue_message t.view.seq t.stop_datas (record { header = h; message = m });
  }

  unfoldable pub queue_sync : TboQueue O → Header → ViewChangeMessage O → TboQueue O
  queue_sync t h m = record t {
    syncs = tbo_queue_message t.view.seq t.syncs (record { header = h; message = m });
  }

  queue_kind : TboQueue O → Header → ViewChangeMessage O → ViewChangeMessageKind O → TboQueue O
  queue_kind t h m (stop _) = queue_stop t h m
  queue_kind t h m (stop_data _) = queue_stop_data t h m
  queue_kind t h m (sync _ _) = queue_sync t h m

  -- `TboQueue::queue`
  unfoldable pub queue : TboQueue O → Header → ViewChangeMessage O → TboQueue O
  unfolding queue_kind
  queue t h m = queue_kind t h m (kind_of m)

  first_waits : Queues O → Bool
  first_waits [] = false
  first_waits ([] ∷ rest) = false
  first_waits ((m ∷ slot) ∷ rest) = true

  unfoldable pub can_process_stops : TboQueue O → Bool
  unfolding first_waits
  can_process_stops t = first_waits t.stops
