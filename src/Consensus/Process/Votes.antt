-- ===== src/Consensus/Process/Votes.antt =====
-- A decision rests on a quorum of votes in the log (bft/consensus/mod.rs).
use bafomet.Base.{
  ℕ, suc, ◌+◌, ◌≤◌, Bool, false, ◌&&◌, ◌==◌, if◌then◌else◌, Result, ok, err, panic, List, [], ◌∷◌,
  ◌++◌, length, select, ◌≡◌, refl, subst, arith,
}
use bafomet.Collections.{OrderedMap}
use bafomet.Ordering.SeqNo.{SeqNo}
use bafomet.Message.{
  NodeId, Digest, Header, ConsensusMessage, ConsensusMessageKind, pre_prepare, prepare, commit,
}
use bafomet.Core.Params.{quorum}
use bafomet.Core.View.{ViewInfo}
use bafomet.Log.Decision.{Stored}
use bafomet.Log.Store.{StoredRequest, Log, insert_consensus}
use bafomet.Consensus.Tbo
use bafomet.Consensus.State.{
  ProtoPhase, init, pre_preparing, preparing_requests, preparing, committing, Consensus,
  ConsensusStatus, voted_twice, deciding, decided,
}
use bafomet.Consensus.Process.{Processed, process_message}

-- A vote for the proposal with the digest `d`.
abbrev pub votes_for : Digest → ConsensusMessageKind → Bool
votes_for d (pre_prepare _) = false
votes_for d (prepare e) = e == d
votes_for d (commit e) = e == d

abbrev pub is_vote_for : SeqNo → SeqNo → Digest → Stored → Bool
is_vote_for seq view d m =
    m.message.seq == seq && m.message.view == view && votes_for d m.message.kind

-- How many votes of an instance and view for the proposal a list holds.
abbrev pub count_votes : SeqNo → SeqNo → Digest → List Stored → ℕ
count_votes seq view d ms = length (select (is_vote_for seq view d) ms)

count_votes-append :
    (seq view : SeqNo) (d : Digest) (ms : List Stored) (m : Stored)
    → count_votes seq view d (ms ++ m ∷ []) ≡ (
        if is_vote_for seq view d m
        then suc (count_votes seq view d ms)
        else count_votes seq view d ms)
count_votes-append seq view d [] m = ground arith
count_votes-append seq view d (x ∷ ms) m = ground (arith, count_votes-append seq view d ms m)

module _ {S O : Type 0} {R : OrderedMap (StoredRequest O)} (me : NodeId) (view : ViewInfo) where
  -- The votes in the log for the current proposal.
  abbrev pub prepare_votes : Consensus → Log S O R → ℕ
  prepare_votes c l = count_votes c.tbo.curr_seq view.seq c.current_digest l.declog.prepares

  abbrev pub commit_votes : Consensus → Log S O R → ℕ
  commit_votes c l = count_votes c.tbo.curr_seq view.seq c.current_digest l.declog.commits

  -- The counters of a phase are backed by votes in the log, besides the one of the leader's
  -- proposal.
  abbrev pub IsBacked : Consensus → Log S O R → ProtoPhase → Type 0
  IsBacked c l init = Unit
  IsBacked c l pre_preparing = Unit
  IsBacked c l preparing_requests = Unit
  IsBacked c l (preparing i) = i ≤ 1 + prepare_votes c l
  IsBacked c l (committing i) =
      (quorum view.params ≤ 1 + prepare_votes c l) × (i ≤ commit_votes c l)

  -- What a decision must rest on.
  abbrev pub IsDecided : Consensus → Log S O R → ConsensusStatus → Type 0
  IsDecided c l (voted_twice _) = Unit
  IsDecided c l deciding = Unit
  IsDecided c l (decided _) =
      (quorum view.params ≤ 1 + prepare_votes c l) × (quorum view.params ≤ commit_votes c l)

  abbrev Keeps : Result (Processed S O R) → Type 0
  Keeps (ok r) = IsBacked r.consensus r.log r.consensus.phase × IsDecided r.consensus r.log r.status
  Keeps (err _) = Unit
  Keeps panic = Unit

  keeps :
      (p : ProtoPhase) (k : ConsensusMessageKind) (c : Consensus) (l : Log S O R) (h : Header)
      (m : ConsensusMessage)
      → c.phase ≡ p
      → m.kind ≡ k
      → IsBacked c l p
      → Keeps (process_message me view c l h m)
  unfolding process_message insert_consensus Tbo.queue_pre_prepare Tbo.queue_prepare
      Tbo.queue_commit
  keeps init (pre_prepare x) c l h m e f v = rw (e, f, process_message) (tt, tt)
  keeps init (prepare x) c l h m e f v = rw (e, f, process_message) (tt, tt)
  keeps init (commit x) c l h m e f v = rw (e, f, process_message) (tt, tt)
  keeps preparing_requests (pre_prepare x) c l h m e f v = rw (e, f, process_message) (tt, tt)
  keeps preparing_requests (prepare x) c l h m e f v = rw (e, f, process_message) (tt, tt)
  keeps preparing_requests (commit x) c l h m e f v = rw (e, f, process_message) (tt, tt)
  keeps pre_preparing (pre_prepare x) c l h m e f v = ground arith
  keeps pre_preparing (prepare x) c l h m e f v = rw (e, f, process_message) (tt, tt)
  keeps pre_preparing (commit x) c l h m e f v = rw (e, f, process_message) (tt, tt)
  keeps (preparing i) (pre_prepare x) c l h m e f v = rw (e, f, process_message) (v, tt)
  keeps (preparing i) (prepare x) c l h m e f v = ground (
    arith,
    count_votes-append c.tbo.curr_seq view.seq c.current_digest l.declog.prepares
        (record { header = h; message = m }),
  )
  keeps (preparing i) (commit x) c l h m e f v = rw (e, f, process_message) (v, tt)
  keeps (committing i) (pre_prepare x) c l h m e f v = rw (e, f, process_message) (v, tt)
  keeps (committing i) (prepare x) c l h m e f v = rw (e, f, process_message) (v, tt)
  keeps (committing i) (commit x) c l h m e f v = ground (
    arith,
    count_votes-append c.tbo.curr_seq view.seq c.current_digest l.declog.commits
        (record { header = h; message = m }),
  )

  -- Processing a message keeps the counters backed by votes in the log. When it decides, the log
  -- holds at least a quorum of commitments, and with the leader's proposal a quorum of votes, all
  -- of the current instance and view and for the digest of the current proposal.
  pub process_message-IsDecided :
      (c : Consensus) (l : Log S O R) (h : Header) (m : ConsensusMessage) (r : Processed S O R)
      → IsBacked c l c.phase
      → process_message me view c l h m ≡ ok r
      → IsBacked r.consensus r.log r.consensus.phase × IsDecided r.consensus r.log r.status
  process_message-IsDecided c l h m r v e = subst Keeps e (keeps c.phase m.kind c l h m refl refl v)
