-- ===== src/Replica/Normal/Executed.antt =====
-- What a replica hands to its executor (bft/core/server/mod.rs).
use bafomet.Base.{
  ℕ, ok, Okay, ok-Okay, List, [], ◌∷◌, ◌++◌, map, All, ◌≡◌, refl, sym, subst, >>=-eq-ok,
}
use bafomet.Collections.{OrderedMap}
use bafomet.Crypto.{Hash}
use bafomet.Ordering.SeqNo.{SeqNo}
use bafomet.Message.{Header, ConsensusMessage}
use bafomet.Message.System.{Send}
use bafomet.Message.Wire.{Signing}
use bafomet.Log.Types.{Info}
use bafomet.Log.Store.{Log}
use bafomet.Log.Store.Requests.{IsDisjoint}
use bafomet.Log.Finalize.{finalize_batch}
use bafomet.Log.Finalize.Collect.{IsFrom}
use bafomet.Log.Finalize.Batch.{finalize_batch-ok}
use bafomet.Executable.{UpdateBatch, ExecutionRequest}
use bafomet.Consensus.State.{ConsensusStatus, voted_twice, deciding, decided}
use bafomet.Consensus.Process as ConsensusProcess
use bafomet.Consensus.Process.Requests.{process_message-HasRequestsOf}
use bafomet.Consensus.Process.Votes.{IsBacked, IsDecided, process_message-IsDecided}
use bafomet.Sync.Types.{StoredRequest}
use bafomet.Sync.Finalize.{Node}
use bafomet.Replica.Types.{
  Replica, Effect, send_sync, send_consensus, send_cst, send_reply, start_timer, execute,
}
use bafomet.Replica.Normal.{to_execute, consensus_status, consensus_received}

-- The requests to the executor.
abbrev pub executed : {S O P : Type 0} → List (Effect S O P) → List (ExecutionRequest S O)
executed [] = []
executed (execute e ∷ es) = e ∷ executed es
executed (send_sync _ ∷ es) = executed es
executed (send_consensus _ ∷ es) = executed es
executed (send_cst _ ∷ es) = executed es
executed (send_reply _ _ ∷ es) = executed es
executed (start_timer _ _ ∷ es) = executed es

executed-map :
    {S O P : Type 0} (ms : List (Send ConsensusMessage)) (es : List (Effect S O P))
    → executed (map send_consensus ms ++ es) ≡ executed es
executed-map [] es = refl
executed-map (m ∷ ms) es = executed-map ms es

module _ {S O : Type 0} {R : OrderedMap (StoredRequest O)} where
  -- What may be executed for a status, from a log: nothing, or one batch, of the digests that were
  -- decided, in order, each of its updates made from the request of the log with that digest.
  abbrev pub MayExecute : Log S O R → ConsensusStatus → List (ExecutionRequest S O) → Type 0
  MayExecute l (decided ds) es =
      (info : Info) × (b : UpdateBatch O) × (es ≡ to_execute info b ∷ [])
      × (map (λ u. u.digest) b ≡ ds)
      × All (IsFrom l) b
  MayExecute l deciding es = es ≡ []
  MayExecute l (voted_twice _) es = ⊥

module _ {S O P : Type 0} {R : OrderedMap (StoredRequest O)} where
  consensus_status-MayExecute :
      (seq : SeqNo) (status : ConsensusStatus) (r : Replica S O R)
      (u : Replica S O R × List (Effect S O P))
      → IsDisjoint r.log
      → consensus_status seq status r ≡ ok u
      → MayExecute r.log status (executed u.1)
  unfolding consensus_status
  consensus_status-MayExecute seq deciding r u v e =
      subst (λ x. Okay (λ u. executed u.1 ≡ []) x) e (ok-Okay (λ u. executed u.1 ≡ []) (r, []) refl)
        u refl
  consensus_status-MayExecute seq (voted_twice _) r u v e = cc
  consensus_status-MayExecute seq (decided ds) r u v e =
      let (done, f, g) = >>=-eq-ok (finalize_batch r.log seq ds).0 _ e in
      let b = finalize_batch-ok r.log seq ds done.0 done.1 v f in
      ok-Okay (λ u. MayExecute r.log (decided ds) (executed u.1)) _ (done.0, done.1, refl, b.0, b.1)
        u g

module _ {S O P : Type 0} {R : OrderedMap (StoredRequest O)} (H : Hash) (G : Signing)
    (node : Node G) (now : ℕ) where
  -- A replica executes a batch only when the consensus has decided it, on a quorum of votes in its
  -- log: the batch holds the requests with the decided digests, in their order, and nothing else is
  -- executed for a consensus message.
  pub consensus_received-MayExecute :
      (r : Replica S O R) (h : Header) (m : ConsensusMessage)
      (u : Replica S O R × List (Effect S O P))
      → IsBacked node.id r.synchronizer.tbo.view r.consensus r.log r.consensus.phase
      → IsDisjoint r.log
      → consensus_received H G node now r h m ≡ ok u
      → (p : ConsensusProcess.Processed S O R) × (ConsensusProcess.process_message node.id
            r.synchronizer.tbo.view r.consensus r.log h m
          ≡ ok p)
        × IsDecided node.id r.synchronizer.tbo.view p.consensus p.log p.status
        × MayExecute p.log p.status (executed u.1)
  unfolding consensus_received
  consensus_received-MayExecute r h m u v d e =
      let view = r.synchronizer.tbo.view in
      let (p, f, g) =
        >>=-eq-ok (ConsensusProcess.process_message node.id view r.consensus r.log h m) _ e in
      let r' : Replica S O R = record r { consensus = p.consensus; log = p.log } in
      let (w, i, j) = >>=-eq-ok (consensus_status r.consensus.tbo.curr_seq p.status r') _ g in
      let same = process_message-HasRequestsOf node.id view r.consensus r.log h m p f in
      let d' : IsDisjoint p.log = λ x. rw (same.1, same.0) (d x) in
      let s = consensus_status-MayExecute r.consensus.tbo.curr_seq p.status r' w d' i in
      (
        p,
        f,
        (process_message-IsDecided node.id view r.consensus r.log h m p v f).1,
        ok-Okay (λ u. MayExecute p.log p.status (executed u.1)) _
            (subst (MayExecute p.log p.status) (sym (executed-map p.sent w.1)) s) u j,
      )
