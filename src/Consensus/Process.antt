-- ===== src/Consensus/Process.antt =====
-- `Consensus::process_message` (bft/consensus/mod.rs), a phase at a time.
pub mod Votes
pub mod Waiting
pub mod Proposals
pub mod Requests
use bafomet.Base.{
  ℕ, ◌+◌, Bool, not, ◌==◌, leb, if◌then◌else◌, is_empty, Result, ok, panic, ◌>>=◌, List, [], ◌∷◌,
  ◌++◌, length, take, select,
}
use bafomet.Collections.{OrderedMap}
use bafomet.Message.{
  NodeId, Digest, Header, ConsensusMessage, ConsensusMessageKind, pre_prepare, prepare, commit,
}
use bafomet.Message.System.{Send, broadcast}
use bafomet.Core.Params.{quorum}
use bafomet.Core.View.{ViewInfo, leader}
use bafomet.Log.Store.{StoredRequest, Log, insert_consensus, has_request}
use bafomet.Consensus.Tbo
use bafomet.Consensus.State.{
  ProtoPhase, init, pre_preparing, preparing_requests, preparing, committing, Consensus,
  ConsensusStatus, voted_twice, deciding, decided, copy_digests, new_message, vote_prepare, targets,
}

-- The state after a message: the status, the consensus, the log, and what is sent.
pub record Processed (S O : Type 0) (R : OrderedMap (StoredRequest O)) : Type 0 where
  pub status : ConsensusStatus
  pub consensus : Consensus
  pub log : Log S O R
  pub sent : List (Send ConsensusMessage)

-- `&self.current[..self.batch_size]`.
decided_digests : Consensus → Result (List Digest)
decided_digests c =
    if leb c.batch_size (length c.current) then ok (take c.batch_size c.current) else panic

module _ {S O : Type 0} {R : OrderedMap (StoredRequest O)} (me : NodeId) (view : ViewInfo) where
  -- A message that changes nothing.
  drop_message : Consensus → Log S O R → Result (Processed S O R)
  drop_message c l = ok (record { status = deciding; consensus = c; log = l; sent = [] })

  queue_pre_prepare : Consensus → Log S O R → Header → ConsensusMessage → Result (Processed S O R)
  queue_pre_prepare c l h m = drop_message (record c { tbo = Tbo.queue_pre_prepare c.tbo h m }) l

  queue_prepare : Consensus → Log S O R → Header → ConsensusMessage → Result (Processed S O R)
  queue_prepare c l h m = drop_message (record c { tbo = Tbo.queue_prepare c.tbo h m }) l

  queue_commit : Consensus → Log S O R → Header → ConsensusMessage → Result (Processed S O R)
  queue_commit c l h m = drop_message (record c { tbo = Tbo.queue_commit c.tbo h m }) l

  -- In `Init` and `PreparingRequests` every message waits.
  queue_any :
      Consensus
      → Log S O R
      → Header
      → ConsensusMessage
      → ConsensusMessageKind
      → Result (Processed S O R)
  queue_any c l h m (pre_prepare _) = queue_pre_prepare c l h m
  queue_any c l h m (prepare _) = queue_prepare c l h m
  queue_any c l h m (commit _) = queue_commit c l h m

  -- The requests of the proposal that the log does not have. All of `current` is looked through.
  still_missing : Consensus → Log S O R → List Digest
  still_missing c l = c.missing_requests ++ select (λ d. not (has_request l d)) c.current

  -- A proposal for this instance and view.
  accept_proposal :
      Consensus → Log S O R → Header → ConsensusMessage → List Digest → Result (Processed S O R)
  unfolding still_missing
  accept_proposal c l h m digests = do
    current ← copy_digests c.current digests
    let c' = record c { batch_size = length digests; current_digest = h.digest; current = current }
    let l' = insert_consensus l h m
    let missing = still_missing c' l'
    ok (record {
      status = deciding;
      consensus = record c' {
        missing_requests = missing;
        phase = if is_empty missing then preparing 1 else preparing_requests;
      };
      log = l';
      sent = vote_prepare me view c';
    })

  process_pre_preparing :
      Consensus
      → Log S O R
      → Header
      → ConsensusMessage
      → ConsensusMessageKind
      → Result (Processed S O R)
  process_pre_preparing c l h m (pre_prepare digests) =
      if not (m.view == view.seq)
      then drop_message c l
      else if not (m.seq == c.tbo.curr_seq)
      then queue_pre_prepare c l h m
      else accept_proposal c l h m digests
  process_pre_preparing c l h m (prepare _) = queue_prepare c l h m
  process_pre_preparing c l h m (commit _) = queue_commit c l h m

  -- The `i`th vote for the proposal. The quorum of votes makes this node commit.
  count_prepare : Consensus → Log S O R → Header → ConsensusMessage → ℕ → Result (Processed S O R)
  count_prepare c l h m i = ok (record {
    status = deciding;
    consensus = record c { phase = if i == quorum view.params then committing 0 else preparing i };
    log = insert_consensus l h m;
    sent =
        if i == quorum view.params
        then broadcast (new_message c view (commit c.current_digest)) (targets view) ∷ []
        else [];
  })

  process_preparing :
      ℕ
      → Consensus
      → Log S O R
      → Header
      → ConsensusMessage
      → ConsensusMessageKind
      → Result (Processed S O R)
  process_preparing i c l h m (pre_prepare _) = queue_pre_prepare c l h m
  process_preparing i c l h m (prepare d) =
      if not (m.view == view.seq)
      then drop_message c l
      else if not (d == c.current_digest)
      then drop_message c l
      else if not (m.seq == c.tbo.curr_seq)
      then queue_prepare c l h m
      else count_prepare c l h m (i + 1)
  process_preparing i c l h m (commit _) = queue_commit c l h m

  -- The `i`th commitment to the proposal. The quorum of them decides.
  count_commit : Consensus → Log S O R → Header → ConsensusMessage → ℕ → Result (Processed S O R)
  unfolding decided_digests
  count_commit c l h m i =
      if i == quorum view.params
      then (do
        digests ← decided_digests c
        ok (record {
          status = decided digests;
          consensus = record c { phase = init };
          log = insert_consensus l h m;
          sent = [];
        }))
      else ok (record {
        status = deciding;
        consensus = record c { phase = committing i };
        log = insert_consensus l h m;
        sent = [];
      })

  process_committing :
      ℕ
      → Consensus
      → Log S O R
      → Header
      → ConsensusMessage
      → ConsensusMessageKind
      → Result (Processed S O R)
  process_committing i c l h m (pre_prepare _) = queue_pre_prepare c l h m
  process_committing i c l h m (prepare _) = queue_prepare c l h m
  process_committing i c l h m (commit d) =
      if not (m.view == view.seq)
      then drop_message c l
      else if not (d == c.current_digest)
      then drop_message c l
      else if not (m.seq == c.tbo.curr_seq)
      then queue_commit c l h m
      else count_commit c l h m (i + 1)

  process_phase :
      ProtoPhase → Consensus → Log S O R → Header → ConsensusMessage → Result (Processed S O R)
  process_phase init c l h m = queue_any c l h m m.kind
  process_phase pre_preparing c l h m = process_pre_preparing c l h m m.kind
  process_phase preparing_requests c l h m = queue_any c l h m m.kind
  process_phase (preparing i) c l h m = process_preparing i c l h m m.kind
  process_phase (committing i) c l h m = process_committing i c l h m m.kind

  -- `process_message`, at node `me` in view `view`.
  unfoldable pub process_message :
      Consensus → Log S O R → Header → ConsensusMessage → Result (Processed S O R)
  unfolding drop_message queue_pre_prepare queue_prepare queue_commit queue_any accept_proposal
      process_pre_preparing count_prepare process_preparing count_commit process_committing
      process_phase
  process_message c l h m = process_phase c.phase c l h m
