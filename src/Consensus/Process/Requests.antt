-- ===== src/Consensus/Process/Requests.antt =====
-- The consensus leaves the requests of the log as they are (bft/consensus/mod.rs).
use bafomet.Base.{Result, ok, err, panic, ◌≡◌, refl, subst, arith}
use bafomet.Collections.{OrderedMap}
use bafomet.Message.{
  NodeId, Header, ConsensusMessage, ConsensusMessageKind, pre_prepare, prepare, commit,
}
use bafomet.Core.View.{ViewInfo}
use bafomet.Log.Store.{StoredRequest, Log, insert_consensus}
use bafomet.Consensus.Tbo
use bafomet.Consensus.State.{
  ProtoPhase, init, pre_preparing, preparing_requests, preparing, committing, Consensus,
}
use bafomet.Consensus.Process.{Processed, process_message}

module _ {S O : Type 0} {R : OrderedMap (StoredRequest O)} (me : NodeId) (view : ViewInfo) where
  abbrev pub HasRequestsOf : Log S O R → Log S O R → Type 0
  HasRequestsOf l l' = (l'.requests ≡ l.requests) × (l'.deciding ≡ l.deciding)

  abbrev Keeps : Log S O R → Result (Processed S O R) → Type 0
  Keeps l (ok r) = HasRequestsOf l r.log
  Keeps l (err _) = Unit
  Keeps l panic = Unit

  keeps :
      (p : ProtoPhase) (k : ConsensusMessageKind) (c : Consensus) (l : Log S O R) (h : Header)
      (m : ConsensusMessage)
      → c.phase ≡ p
      → m.kind ≡ k
      → Keeps l (process_message me view c l h m)
  unfolding process_message insert_consensus Tbo.queue_pre_prepare Tbo.queue_prepare
      Tbo.queue_commit
  keeps init (pre_prepare x) c l h m e f = rw (e, f, process_message) (refl, refl)
  keeps init (prepare x) c l h m e f = rw (e, f, process_message) (refl, refl)
  keeps init (commit x) c l h m e f = rw (e, f, process_message) (refl, refl)
  keeps preparing_requests (pre_prepare x) c l h m e f = rw (e, f, process_message) (refl, refl)
  keeps preparing_requests (prepare x) c l h m e f = rw (e, f, process_message) (refl, refl)
  keeps preparing_requests (commit x) c l h m e f = rw (e, f, process_message) (refl, refl)
  keeps pre_preparing (pre_prepare x) c l h m e f = ground arith
  keeps pre_preparing (prepare x) c l h m e f = rw (e, f, process_message) (refl, refl)
  keeps pre_preparing (commit x) c l h m e f = rw (e, f, process_message) (refl, refl)
  keeps (preparing i) (pre_prepare x) c l h m e f = rw (e, f, process_message) (refl, refl)
  keeps (preparing i) (prepare x) c l h m e f = ground arith
  keeps (preparing i) (commit x) c l h m e f = rw (e, f, process_message) (refl, refl)
  keeps (committing i) (pre_prepare x) c l h m e f = rw (e, f, process_message) (refl, refl)
  keeps (committing i) (prepare x) c l h m e f = rw (e, f, process_message) (refl, refl)
  keeps (committing i) (commit x) c l h m e f = ground arith

  pub process_message-HasRequestsOf :
      (c : Consensus) (l : Log S O R) (h : Header) (m : ConsensusMessage) (r : Processed S O R)
      → process_message me view c l h m ≡ ok r
      → HasRequestsOf l r.log
  process_message-HasRequestsOf c l h m r e =
      subst (Keeps l) e (keeps c.phase m.kind c l h m refl refl)
