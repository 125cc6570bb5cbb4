-- ===== src/Cst/Process.antt =====
-- `CollabStateTransfer::process_message` (bft/cst/mod.rs). A `HashMap` gives its entries in the
-- order of its list.
pub mod Requests
pub mod Cids
pub mod Best
pub mod States
use bafomet.Base.{
  ℕ, ◌+◌, Bool, not, ltb, leb, ◌==◌, if◌then◌else◌, Option, none, some, Result, ok, err, panic,
  List, [], ◌∷◌, Ordering, HashMap, get, insert,
}
use bafomet.Collections.{OrderedMap}
use bafomet.Ordering.SeqNo.{SeqNo, cmp}
use bafomet.Message.{Digest, Header}
use bafomet.Message.System.{
  RecoveryState, CstMessage, CstMessageKind, request_latest_consensus_seq,
  reply_latest_consensus_seq, request_state, reply_state, take_state, Send, send,
}
use bafomet.Core.Params.{quorum}
use bafomet.Core.View.{ViewInfo}
use bafomet.Log.Store.{StoredRequest, Log, snapshot}
use bafomet.Cst.State.{
  ProtoPhase, init, waiting_checkpoint, receiving_cid, receiving_state, ReceivedState,
  CollabStateTransfer, CstStatus, idle, running, ask_latest_cid, ask_state, seq_no, state,
  CstProgress, nothing, message,
}

-- The state after a message: the status, the protocol, and what is sent.
pub record Processed (S O : Type 0) : Type 0 where
  pub status : CstStatus S O
  pub cst : CollabStateTransfer S O
  pub sent : List (Send (CstMessage S O))

module _ {S O : Type 0} where
  abbrev pub quiet : CstStatus S O → CollabStateTransfer S O → Processed S O
  quiet status cst = record { status = status; cst = cst; sent = [] }

  -- `received_states.entry(digest).or_insert(..)`, and one more reply with that digest.
  unfoldable pub count_state :
      Digest → RecoveryState S O → HashMap (ReceivedState S O) → HashMap (ReceivedState S O)
  count_state digest s states =
      insert digest
        (elim (get digest states) [
          | none ↦ record { count = 1; state = s }
          | some r ↦ record r { count = r.count + 1 }
        ])
        states

  -- `max_by_key`, which gives the last of several maxima.
  unfoldable pub best : HashMap (ReceivedState S O) → Option (Digest × ReceivedState S O)
  best [] = none
  best ((d, r) ∷ states) = elim (best states) [
    | none ↦ some (d, r)
    | some (e, s) ↦ if leb r.count s.count then some (e, s) else some (d, r)
  ]

  unfoldable pub count_cid : SeqNo → CollabStateTransfer S O → CollabStateTransfer S O
  count_cid seq c = elim (cmp seq c.latest_cid) [
    | Ordering.gt ↦ record c { latest_cid = seq; latest_cid_count = 1 }
    | Ordering.eq ↦ record c { latest_cid_count = c.latest_cid_count + 1 }
    | Ordering.lt ↦ c
  ]

  -- The `i`th number has come in.
  unfoldable pub check_cids : ViewInfo → ℕ → CollabStateTransfer S O → Processed S O
  check_cids view i c =
      if i == quorum view.params
      then (if ltb view.params.f c.latest_cid_count
          then quiet (seq_no c.latest_cid)
              (record c { phase = init; curr_timeout = c.base_timeout })
          else quiet ask_latest_cid (record c { phase = init }))
      else quiet running (record c { phase = receiving_cid i })

  process_cid : ViewInfo → ℕ → CollabStateTransfer S O → CstMessageKind S O → Processed S O
  unfolding count_cid check_cids
  process_cid view i c (reply_latest_consensus_seq seq) = check_cids view (i + 1) (count_cid seq c)
  process_cid view i c request_latest_consensus_seq = quiet running c
  process_cid view i c request_state = quiet running c
  process_cid view i c (reply_state _) = quiet running c

  -- The state that is returned, once it was taken out of the received ones.
  enough_state : ViewInfo → Option (ReceivedState S O) → CstStatus S O
  enough_state view none = ask_state
  enough_state view (some r) = if ltb view.params.f r.count then state r.state else ask_state

  -- A quorum of states has come in. The phase stays as it is.
  unfoldable pub choose_state : ViewInfo → CollabStateTransfer S O → Processed S O
  unfolding best enough_state
  choose_state view c = elim (best c.received_states) [
    | none ↦ quiet ask_state (record c { received_states = [] })
    | some (digest, _) ↦
        quiet (enough_state view (get digest c.received_states))
          (record c { received_states = []; curr_timeout = c.base_timeout })
  ]

  process_state :
      ViewInfo → ℕ → CollabStateTransfer S O → Header → Option (RecoveryState S O) → Processed S O
  unfolding count_state choose_state
  process_state view i c h none = quiet running c
  process_state view i c h (some s) =
      let c' = record c { received_states = count_state h.digest s c.received_states } in
      if not (i + 1 == quorum view.params)
      then quiet running (record c' { phase = receiving_state (i + 1) })
      else choose_state view c'

  reply_with :
      CollabStateTransfer S O
      → Header
      → CstMessage S O
      → Result (RecoveryState S O)
      → CollabStateTransfer S O × List (Send (CstMessage S O))
  reply_with c h m (ok s) = (c, send (record { seq = m.seq; kind = reply_state s }) h.from ∷ [])
  reply_with c h m _ = (record c { phase = waiting_checkpoint h m }, [])

module _ {S O : Type 0} {R : OrderedMap (StoredRequest O)} (view : ViewInfo) where
  unfoldable pub process_reply_state :
      CollabStateTransfer S O
      → Log S O R
      → Header
      → CstMessage S O
      → CollabStateTransfer S O × List (Send (CstMessage S O))
  unfolding reply_with
  process_reply_state c l h m = reply_with c h m (snapshot l view)

  serve :
      CollabStateTransfer S O
      → SeqNo
      → Log S O R
      → Header
      → CstMessage S O
      → CstMessageKind S O
      → Processed S O
  unfolding process_reply_state
  serve c seq l h m request_latest_consensus_seq = record {
    status = idle;
    cst = c;
    sent = send (record { seq = m.seq; kind = reply_latest_consensus_seq seq }) h.from ∷ [];
  }
  serve c seq l h m request_state =
      let r = process_reply_state c l h m in record { status = idle; cst = r.0; sent = r.1 }
  serve c seq l h m (reply_latest_consensus_seq _) = quiet idle c
  serve c seq l h m (reply_state _) = quiet idle c

  process_phase :
      CollabStateTransfer S O → SeqNo → Log S O R → ProtoPhase S O → CstProgress S O → Processed S O
  unfolding process_reply_state process_cid process_state serve
  process_phase c seq l (waiting_checkpoint h m) _ =
      let r = process_reply_state (record c { phase = init }) l h m in
      record { status = idle; cst = r.0; sent = r.1 }
  process_phase c seq l init nothing = quiet idle c
  process_phase c seq l init (message h m) = serve c seq l h m m.kind
  process_phase c seq l (receiving_cid i) nothing = quiet ask_latest_cid c
  process_phase c seq l (receiving_cid i) (message h m) =
      if not (m.seq == c.cst_seq) then quiet running c else process_cid view i c m.kind
  process_phase c seq l (receiving_state i) nothing = quiet ask_state c
  process_phase c seq l (receiving_state i) (message h m) =
      if not (m.seq == c.cst_seq) then quiet running c else process_state view i c h (take_state m)

  -- `process_message` in view `view`, with the number `seq` of the consensus.
  unfoldable pub process_message :
      CollabStateTransfer S O → SeqNo → Log S O R → CstProgress S O → Processed S O
  unfolding process_phase
  process_message c seq l progress = process_phase c seq l c.phase progress
