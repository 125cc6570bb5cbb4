-- ===== src/Cst/Process/Requests.antt =====
-- What a replica gets for its requests, and what it answers to those of others (bft/cst/mod.rs).
use bafomet.Base.{refl, Error, true, ok, err, [], ◌∷◌, ◌≡◌, arith}
use bafomet.Collections.{OrderedMap}
use bafomet.Ordering.SeqNo.{SeqNo, IsSeqNo}
use bafomet.Ordering.Distance.{next-mod}
use bafomet.Message.{Header}
use bafomet.Message.System.{
  RecoveryState, CstMessage, CstMessageKind, request_latest_consensus_seq,
  reply_latest_consensus_seq, reply_state, request_state, send,
}
use bafomet.Core.View.{ViewInfo}
use bafomet.Log.Store.{StoredRequest, Log, snapshot}
use bafomet.Cst.State.{
  init, waiting_checkpoint, CollabStateTransfer, idle, running, CstProgress, message,
  request_latest_consensus_seq_no, request_latest_state, needs_checkpoint,
}
use bafomet.Cst.Process.{quiet, serve, process_phase, process_reply_state, process_message}

module _ {S O : Type 0} {R : OrderedMap (StoredRequest O)} (view : ViewInfo) where
  -- A reply to either request carries the number of the request, and the replica expects the number
  -- after it: whatever the reply is, it is dropped, and the protocol stays as it was.
  pub process_message_request_dropped :
      (c : CollabStateTransfer S O) (seq : SeqNo) (l : Log S O R) (h : Header) (m : CstMessage S O)
      → IsSeqNo c.cst_seq
      → m.seq ≡ (request_latest_state c view).timeout.1
      → (process_message view (request_latest_state c view).cst seq l (message h m)
          ≡ quiet running (request_latest_state c view).cst)
        × (process_message view (request_latest_consensus_seq_no c view).cst seq l (message h m)
            ≡ quiet running (request_latest_consensus_seq_no c view).cst)
  unfolding process_message request_latest_state request_latest_consensus_seq_no
  process_message_request_dropped c seq l h m v e = ground (arith, next-mod c.cst_seq v)

  -- A request for the state that comes before there is a checkpoint is kept, and the next call with
  -- a log that has one answers it, whatever has come in, and ends as the protocol began.
  pub process_message_deferred :
      (c : CollabStateTransfer S O) (seq seq' : SeqNo) (l l' : Log S O R) (h : Header)
      (m : CstMessage S O) (e : Error) (s : RecoveryState S O) (progress : CstProgress S O)
      → c.phase ≡ init
      → m.kind ≡ request_state
      → snapshot l view ≡ err e
      → snapshot l' view ≡ ok s
      → (needs_checkpoint (process_message view c seq l (message h m)).cst ≡ true)
        × (process_message view (process_message view c seq l (message h m)).cst seq' l' progress
            ≡ record {
              status = idle;
              cst = c;
              sent = send (record { seq = m.seq; kind = reply_state s }) h.from ∷ [];
            })
  unfolding process_message process_reply_state needs_checkpoint
  process_message_deferred c seq seq' l l' h m e s progress p k f g = ground (arith, p, k, f, g)

  serve_idle :
      (c : CollabStateTransfer S O) (seq : SeqNo) (l : Log S O R) (h : Header) (m : CstMessage S O)
      (k : CstMessageKind S O)
      → (serve view c seq l h m k).status ≡ idle
  unfolding serve
  serve_idle c seq l h m request_latest_consensus_seq = refl
  serve_idle c seq l h m request_state = refl
  serve_idle c seq l h m (reply_latest_consensus_seq _) = refl
  serve_idle c seq l h m (reply_state _) = refl

  -- Where no state transfer runs, a message of it leads to nothing but an answer.
  pub process_message_idle :
      (c : CollabStateTransfer S O) (seq : SeqNo) (l : Log S O R) (h : Header) (m : CstMessage S O)
      → c.phase ≡ init
      → (process_message view c seq l (message h m)).status ≡ idle
  unfolding process_message process_phase
  process_message_idle c seq l h m e =
      rw (e, process_message, process_phase) (serve_idle c seq l h m m.kind)

  -- A request that waits is answered as soon as the log has a snapshot.
  pub process_message_answers :
      (c : CollabStateTransfer S O) (seq : SeqNo) (l : Log S O R) (h : Header) (m : CstMessage S O)
      (s : RecoveryState S O) (progress : CstProgress S O)
      → c.phase ≡ waiting_checkpoint h m
      → snapshot l view ≡ ok s
      → process_message view c seq l progress ≡ record {
        status = idle;
        cst = record c { phase = init };
        sent = send (record { seq = m.seq; kind = reply_state s }) h.from ∷ [];
      }
  unfolding process_message process_reply_state
  process_message_answers c seq l h m s progress p f = ground (arith, p, f)
