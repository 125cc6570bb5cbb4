-- ===== src/Replica/Normal/Tests.antt =====
-- A batch that is decided and executed, at concrete messages.
use bafomet.Base.{ℕ, ok, List, [], ◌∷◌, ◌≡◌, inr, refl, arith, contains_key, get}
use bafomet.Collections.{assoc_map}
use bafomet.Message.{ConsensusMessage, ConsensusMessageKind, pre_prepare, prepare, commit}
use bafomet.Log.Types.{empty_declog}
use bafomet.Log.Decision.{Stored}
use bafomet.Log.Store.{Log, insert_consensus}
use bafomet.Log.Store
use bafomet.Log.Store.Requests.{IsDisjoint}
use bafomet.Log.Finalize.{finalize_batch, finalize_checkpoint}
use bafomet.Executable.{update_batch}
use bafomet.Consensus.State.{Consensus, targets, committing, init, decided, next_instance}
use bafomet.Consensus.State
use bafomet.Consensus.Tbo as ConsensusTbo
use bafomet.Consensus.Process as ConsensusProcess
use bafomet.Consensus.Process.Votes.{IsBacked, IsDecided}
use bafomet.Sync.Samples.{sums, zeros, node, view}
use bafomet.Sync.Types.{StoredRequest}
use bafomet.Sync.Tbo
use bafomet.Sync.Watch as Watch
use bafomet.Replica.Samples.{TestReplica, TestEffect, header, new_replica}
use bafomet.Replica.Types.{execute, create}
use bafomet.Replica.Normal.{consensus_received, unwatch_requests, signalled}
use bafomet.Replica.Normal.Executed.{executed, MayExecute, consensus_received-MayExecute}

abbrev stored : ConsensusMessageKind → Stored
stored kind = record { header = header 1; message = record { seq = 7; view = 0; kind = kind } }

-- Batch 5 is committed by two nodes, and the log has the request 5.
abbrev voting : TestReplica
voting = record new_replica {
  consensus = record new_replica.consensus {
    phase = committing 2;
    batch_size = 1;
    current = 5 ∷ 6 ∷ [];
    current_digest = 9;
  };
  log = record new_replica.log {
    declog = record empty_declog {
      pre_prepares = stored (pre_prepare (5 ∷ [])) ∷ [];
      prepares = stored (prepare 9) ∷ stored (prepare 9) ∷ [];
      commits = stored (commit 9) ∷ stored (commit 9) ∷ [];
    };
    deciding = (5, record { header = header 1000; message = record { operation = 11 } }) ∷ [];
  };
}

voting-IsDisjoint : IsDisjoint voting.log
unfolding create Store.create get assoc_map
voting-IsDisjoint d = inr refl

abbrev last_commit : ConsensusMessage
last_commit = record { seq = 7; view = 0; kind = commit 9 }

voting-IsBacked : IsBacked 0 view voting.consensus voting.log (committing 2)
unfolding create State.create ConsensusTbo.create
voting-IsBacked = (ground arith, ground arith)

abbrev committed : Consensus
committed = record voting.consensus { phase = init }

abbrev after_commit : TestReplica
after_commit = signalled (record voting {
  synchronizer = unwatch_requests (5 ∷ []) voting.synchronizer;
  consensus = next_instance committed;
  log = (finalize_batch (insert_consensus voting.log (header 2) last_commit) 7 (5 ∷ [])).1;
})

abbrev effects : List TestEffect
effects = execute (update_batch (record { from = 1000; digest = 5; operation = 11 } ∷ [])) ∷ []

consensus_received-MayExecute_example :
    (p : ConsensusProcess.Processed ℕ ℕ (assoc_map (StoredRequest ℕ)))
    × (ConsensusProcess.process_message 0 view voting.consensus voting.log (header 2) last_commit
        ≡ ok p)
    × IsDecided 0 view p.consensus p.log p.status
    × MayExecute p.log p.status (executed effects)
unfolding create Watch.create Tbo.create consensus_received ConsensusProcess.process_message
    State.create ConsensusTbo.create finalize_batch bafomet.Log.Finalize.collect_batch get
    insert_consensus bafomet.Log.Finalize.finish_batch bafomet.Log.Finalize.checkpoint_due
    bafomet.Log.Finalize.last_seq_no contains_key
consensus_received-MayExecute_example =
    consensus_received-MayExecute sums zeros node 3 voting (header 2) last_commit
      (after_commit, effects) voting-IsBacked voting-IsDisjoint refl
