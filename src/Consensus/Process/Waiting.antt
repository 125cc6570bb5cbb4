-- ===== src/Consensus/Process/Waiting.antt =====
-- Messages that wait keep to their slots while others are processed (bft/consensus/mod.rs).
use bafomet.Base.{ℕ, ◌+◌, ◌^◌, Bool, true, Result, ok, err, panic, List, [], ◌∷◌, ◌≡◌, subst, arith}
use bafomet.Collections.{OrderedMap}
use bafomet.Ordering.SeqNo.{IsSeqNo, index, right}
use bafomet.Ordering.Distance.{index_iff}
use bafomet.Ordering.Queue.{tbo_queue_message, tbo_pop_message}
use bafomet.Message.{
  NodeId, Digest, Header, StoredMessage, ConsensusMessage, ConsensusMessageKind, pre_prepare,
  prepare, commit, consensus_message_orderable,
}
use bafomet.Core.View.{ViewInfo}
use bafomet.Log.Store.{StoredRequest, Log}
use bafomet.Consensus.Tbo
use bafomet.Consensus.Tbo.{TboQueue}
use bafomet.Consensus.Tbo.Valid.{
  IsValid, queue_pre_prepare-IsValid, queue_prepare-IsValid, queue_commit-IsValid,
}
use bafomet.Consensus.State.{
  ProtoPhase, init, pre_preparing, preparing_requests, preparing, committing, Consensus, deciding,
}
use bafomet.Consensus.Poll.{poll, next_message}
use bafomet.Consensus.Process.{
  Processed, process_message, queue_any, process_pre_preparing, process_preparing,
  process_committing, process_phase,
}

-- A consensus that waits for a proposal, with a single message queued, in the first slot.
abbrev pub Waits : Consensus → StoredMessage ConsensusMessage → Type 0
Waits c m =
    (c.phase ≡ pre_preparing) × (c.tbo.get_queue ≡ true) × (c.tbo.pre_prepares ≡ (m ∷ []) ∷ [])

abbrev without_proposals : Consensus → Consensus
without_proposals c = record c { tbo = record c.tbo { pre_prepares = [] ∷ [] } }

Waits-poll :
    (has : Digest → Bool) (c : Consensus) (m : StoredMessage ConsensusMessage)
    → Waits c m
    → poll has c ≡ (next_message m.header m.message, without_proposals c)
unfolding poll tbo_pop_message
Waits-poll has c m w = ground arith

module _ {S O : Type 0} {R : OrderedMap (StoredRequest O)} (me : NodeId) (view : ViewInfo) where
  abbrev Keeps : Result (Processed S O R) → Type 0
  Keeps (ok r) = IsValid r.consensus.tbo
  Keeps (err _) = Unit
  Keeps panic = Unit

  module _ (c : Consensus) (l : Log S O R) (h : Header) (m : ConsensusMessage)
      (v : IsValid c.tbo) where
    Keeps-waiting : (k : ConsensusMessageKind) → Keeps (queue_any me view c l h m k)
    unfolding process_message
    Keeps-waiting (pre_prepare _) = queue_pre_prepare-IsValid c.tbo h m v
    Keeps-waiting (prepare _) = queue_prepare-IsValid c.tbo h m v
    Keeps-waiting (commit _) = queue_commit-IsValid c.tbo h m v

    Keeps-pre_preparing :
        (k : ConsensusMessageKind) → Keeps (process_pre_preparing me view c l h m k)
    unfolding process_message
    Keeps-pre_preparing (pre_prepare ds) = grind (arith, queue_pre_prepare-IsValid c.tbo h m v)
    Keeps-pre_preparing (prepare _) = queue_prepare-IsValid c.tbo h m v
    Keeps-pre_preparing (commit _) = queue_commit-IsValid c.tbo h m v

    Keeps-preparing :
        (i : ℕ) (k : ConsensusMessageKind) → Keeps (process_preparing me view i c l h m k)
    unfolding process_message
    Keeps-preparing i (pre_prepare _) = queue_pre_prepare-IsValid c.tbo h m v
    Keeps-preparing i (prepare d) = grind (arith, queue_prepare-IsValid c.tbo h m v)
    Keeps-preparing i (commit _) = queue_commit-IsValid c.tbo h m v

    Keeps-committing :
        (i : ℕ) (k : ConsensusMessageKind) → Keeps (process_committing me view i c l h m k)
    unfolding process_message
    Keeps-committing i (pre_prepare _) = queue_pre_prepare-IsValid c.tbo h m v
    Keeps-committing i (prepare _) = queue_prepare-IsValid c.tbo h m v
    Keeps-committing i (commit d) = grind (arith, queue_commit-IsValid c.tbo h m v)

    Keeps-phase : (p : ProtoPhase) → Keeps (process_phase me view p c l h m)
    unfolding process_message
    Keeps-phase init = Keeps-waiting m.kind
    Keeps-phase pre_preparing = Keeps-pre_preparing m.kind
    Keeps-phase preparing_requests = Keeps-waiting m.kind
    Keeps-phase (preparing i) = Keeps-preparing i m.kind
    Keeps-phase (committing i) = Keeps-committing i m.kind

  -- Whatever the phase and the message, the queues stay valid.
  pub process_message-IsValid :
      (c : Consensus) (l : Log S O R) (h : Header) (m : ConsensusMessage) (r : Processed S O R)
      → IsValid c.tbo
      → process_message me view c l h m ≡ ok r
      → IsValid r.consensus.tbo
  unfolding process_message
  process_message-IsValid c l h m r v e = subst Keeps e (Keeps-phase c l h m v c.phase)

  -- A queued proposal of the current view whose number differs from the current one only in its
  -- sign bit is never used up: `poll` takes it out, `process_message` puts it back, and the consensus
  -- is as before, so that the replica turns round without reading from the network.
  pub poll-process_message_loop :
      (has : Digest → Bool) (c : Consensus) (l : Log S O R) (m : StoredMessage ConsensusMessage)
      (ds : List Digest)
      → Waits c m
      → m.message.kind ≡ pre_prepare ds
      → m.message.view ≡ view.seq
      → IsSeqNo c.tbo.curr_seq
      → m.message.seq ≡ c.tbo.curr_seq + 2 ^ 31
      → ((poll has c).0 ≡ next_message m.header m.message)
        × (process_message me view (poll has c).1 l m.header m.message
            ≡ ok (record { status = deciding; consensus = c; log = l; sent = [] }))
  unfolding poll process_message tbo_pop_message tbo_queue_message Tbo.queue_pre_prepare
  poll-process_message_loop has c l m ds w k vw s e =
      let at : index m.message.seq c.tbo.curr_seq ≡ right 0 =
        (index_iff m.message.seq c.tbo.curr_seq 0 s).1 (omega arith, omega arith) in
      let taken = Waits-poll has c m w in
      (ground (arith, taken), rw taken (ground (arith, taken, at)))
