-- ===== src/Replica/Syncing/Tests.antt =====
-- A view change that needs the state of others, at concrete messages.
use bafomet.Base.{ℕ, true, some, none, ok, List, [], ◌≡◌, refl, replicate}
use bafomet.Collections.{assoc_map}
use bafomet.Ordering.SeqNo.{SeqNo, next}
use bafomet.Message.{
  NodeId, Digest, Header, StoredMessage, ConsensusMessage, ConsensusMessageKind, pre_prepare,
  prepare, commit,
}
use bafomet.Message.System.{
  ViewChangeMessage, view_change, stop_data, sync, no_collects, collect, CstMessage, request_state,
  Collects,
}
use bafomet.Message.Wire.{Signing, is_valid, from_parts}
use bafomet.Core.View.{ViewInfo, leader}
use bafomet.Log.Types.{Proof}
use bafomet.Log.Decision.{Stored}
use bafomet.Log.Store.{Log, insert_consensus}
use bafomet.Log.Store
use bafomet.Cst.State as CstState
use bafomet.Sync.Samples.{sums, zeros, node, view}
use bafomet.Sync.Types.{StoredRequest, unbound, syncing, syncing_state, ask_cst}
use bafomet.Sync.Tbo
use bafomet.Sync.Watch as Watch
use bafomet.Sync.Finalize.{Node, Processed}
use bafomet.Sync.Process as SyncProcess
use bafomet.Replica.Samples.{TestReplica, TestEffect, header, new_replica}
use bafomet.Replica.Types.{sync_phase, retrieving_state, create}
use bafomet.Replica.Syncing.{change_received, with_processed}

-- Three nodes prove that instance 4 was decided, of which this replica knows nothing.
abbrev voted : Stored
voted = record { header = header 2; message = record { seq = 4; view = 0; kind = commit 9 } }

abbrev proof : Proof
proof = record {
  pre_prepare = record {
    header = header 1;
    message = record { seq = 4; view = 0; kind = pre_prepare [] };
  };
  prepares = [];
  commits = replicate 3 voted;
}

abbrev proved : ViewChangeMessage ℕ
proved = view_change 1 (
    stop_data (record {
      incomplete_proof = record { in_exec = 5; write_set = []; quorum_writes = none };
      last_proof = some proof;
    }))

abbrev proofs : Collects ℕ
proofs =
    collect (header 1) proved (collect (header 2) proved (collect (header 3) proved no_collects))

abbrev view1 : ViewInfo
view1 = record view { seq = 1 }

abbrev changing : TestReplica
changing = record new_replica {
  phase = sync_phase;
  synchronizer = record new_replica.synchronizer {
    phase = syncing;
    tbo = record new_replica.synchronizer.tbo { view = view1 };
  };
}

abbrev asking : Processed ℕ ℕ (assoc_map (StoredRequest ℕ))
asking = record {
  status = ask_cst;
  sync = record changing.synchronizer {
    phase = syncing_state;
    finalize_state = some (record { curr_cid = 5; proposed = []; sound = unbound true });
  };
  consensus_ = changing.consensus;
  log = changing.log;
  sent = [];
  timers = [];
}

abbrev unasked : TestReplica
unasked = record (with_processed changing asking) {
  phase = retrieving_state;
  phase_stack = some sync_phase;
}

abbrev state_message : CstMessage ℕ ℕ
state_message = record { seq = 0; kind = request_state }

asked :
    SyncProcess.process_message sums zeros node 3 changing.synchronizer changing.consensus
      changing.log
      (header 1)
      (view_change 1 (sync [] proofs))
    ≡ ok asking
unfolding SyncProcess.process_message leader bafomet.Sync.Predicates.sound
    bafomet.Sync.Predicates.find_bound bafomet.Sync.Predicates.candidates
    bafomet.Sync.Predicates.normalized_collects bafomet.Sync.Predicates.collect_data
    bafomet.Sync.Proofs.signed_collects bafomet.Sync.Proofs.validate_signature from_parts
    bafomet.Message.Wire.verify_parts bafomet.Sync.Proofs.highest_proof bafomet.Sync.Proofs.highest
    bafomet.Sync.Proofs.last_proofs bafomet.Sync.Proofs.is_proof bafomet.Message.has_proposed_digest
    bafomet.Ordering.SeqNo.cmp create Watch.create Tbo.create bafomet.Ordering.SeqNo.from_u32
    bafomet.Sync.Predicates.insert_new bafomet.Sync.Predicates.is_unbound
    bafomet.Sync.Predicates.on_first_view bafomet.Sync.Finalize.finish_change
    bafomet.Log.Decision.executing Store.create
asked = refl

abbrev no_effects : List TestEffect
no_effects = []

received_asking :
    change_received sums zeros node 3 changing (header 1) (view_change 1 (sync [] proofs))
    ≡ ok (true, unasked, no_effects)
unfolding change_received CstState.create SyncProcess.process_message leader
    bafomet.Sync.Predicates.sound bafomet.Sync.Predicates.find_bound
    bafomet.Sync.Predicates.candidates bafomet.Sync.Predicates.normalized_collects
    bafomet.Sync.Predicates.collect_data bafomet.Sync.Proofs.signed_collects
    bafomet.Sync.Proofs.validate_signature from_parts bafomet.Message.Wire.verify_parts
    bafomet.Sync.Proofs.highest_proof bafomet.Sync.Proofs.highest bafomet.Sync.Proofs.last_proofs
    bafomet.Sync.Proofs.is_proof bafomet.Message.has_proposed_digest bafomet.Ordering.SeqNo.cmp
    create Watch.create Tbo.create bafomet.Ordering.SeqNo.from_u32
    bafomet.Sync.Predicates.insert_new bafomet.Sync.Predicates.is_unbound
    bafomet.Sync.Predicates.on_first_view bafomet.Sync.Finalize.finish_change
    bafomet.Log.Decision.executing Store.create
received_asking = refl
