-- ===== src/Log/Store.antt =====
-- `Log` (bft/consensus/log/mod.rs): the messages, requests and checkpoints of a replica. A method
-- that changes the log returns the new log, also beside an error.
pub mod Requests
use bafomet.Base.{
  ℕ, ◌+◌, ◌%◌, Bool, true, false, ◌&&◌, ◌||◌, ltb, leb, ◌==◌, if◌then◌else◌, Option, none, some,
  is_some, or_else, unwrap_or, Result, ok, err, panic, simple, wrapped, consensus_log, List, [],
  ◌∷◌, ◌++◌, map, last, init, take, length, is_empty, HashMap, get, insert, remove, contains_key,
  keys,
}
use bafomet.Collections.{OrderedMap}
use bafomet.Crypto.{Hash, unique_digest}
use bafomet.Ordering.SeqNo.{SeqNo, period}
use bafomet.Message.{
  Digest, Header, StoredMessage, RequestMessage, ConsensusMessage, ConsensusMessageKind,
  pre_prepare, prepare, commit,
}
use bafomet.Message.System.{SystemMessage, request, consensus, RecoveryState}
use bafomet.Core.View.{ViewInfo}
use bafomet.Log.Types.{
  Info, nil, begin_checkpoint, Checkpoint, CheckpointState, no_checkpoint, partial,
  partial_with_earlier, complete, DecisionLog, empty_declog,
}
use bafomet.Log.Decision.{Stored}
use bafomet.Executable.{Update, UpdateBatch, add_update}

-- A client's request with its header.
abbrev pub StoredRequest : Type 0 → Type 0
StoredRequest O = StoredMessage (RequestMessage O)

pub record Log (S O : Type 0) (R : OrderedMap (StoredRequest O)) : Type 0 where
  pub curr_seq : SeqNo
  pub batch_size : ℕ
  pub declog : DecisionLog
  pub requests : R.Map
  pub deciding : HashMap (StoredRequest O)
  pub decided : List O
  pub checkpoint : CheckpointState S

-- The three lists of the decision log take the three kinds of messages.
unfoldable pub push_consensus : DecisionLog → Stored → ConsensusMessageKind → DecisionLog
push_consensus l m (pre_prepare _) = record l { pre_prepares = l.pre_prepares ++ m ∷ [] }
push_consensus l m (prepare _) = record l { prepares = l.prepares ++ m ∷ [] }
push_consensus l m (commit _) = record l { commits = l.commits ++ m ∷ [] }

cons_some {ℓ} : {A : Type ℓ} → Option A → List A → List A
cons_some none xs = xs
cons_some (some x) xs = x ∷ xs

module _ {S O : Type 0} {R : OrderedMap (StoredRequest O)} where
  unfoldable pub create : ℕ → Log S O R
  create batch_size = record {
    curr_seq = 0;
    batch_size = batch_size;
    declog = empty_declog;
    requests = R.empty;
    deciding = [];
    decided = [];
    checkpoint = no_checkpoint;
  }

  unfoldable pub install_state : Log S O R → SeqNo → RecoveryState S O → Log S O R
  install_state l last_seq rs = record l {
    declog = rs.declog;
    decided = rs.requests;
    checkpoint = complete rs.checkpoint;
    curr_seq = last_seq;
  }

  snapshot_of : Log S O R → ViewInfo → CheckpointState S → Result (RecoveryState S O)
  snapshot_of l view (complete c) =
      ok (record { view = view; checkpoint = c; requests = l.decided; declog = l.declog })
  snapshot_of l view _ = err (wrapped consensus_log "Checkpoint to be finalized")

  unfoldable pub snapshot : Log S O R → ViewInfo → Result (RecoveryState S O)
  unfolding snapshot_of
  snapshot l view = snapshot_of l view l.checkpoint

  unfoldable pub insert_request : Hash → Log S O R → Header → RequestMessage O → Log S O R
  insert_request H l header m =
      let digest = unique_digest H header in
      record l {
        requests = R.insert digest (record { header = header; message = m }) l.requests;
        deciding = remove digest l.deciding;
      }

  unfoldable pub insert_consensus : Log S O R → Header → ConsensusMessage → Log S O R
  unfolding push_consensus
  insert_consensus l header m = record l {
    declog = push_consensus l.declog (record { header = header; message = m }) m.kind;
  }

  -- `Log::insert`.
  unfoldable pub insert_message :
      {P : Type 0} → Hash → Log S O R → Header → SystemMessage S O P → Log S O R
  unfolding insert_request insert_consensus
  insert_message H l header (request m) = insert_request H l header m
  insert_message H l header (consensus m) = insert_consensus l header m
  insert_message H l header _ = l

  unfoldable pub next_batch : Log S O R → Option (List Digest) × Log S O R
  next_batch l = elim (R.pop_front l.requests) [
    | none ↦ (none, l)
    | some (digest, stored, rest) ↦
        let deciding = insert digest stored l.deciding in
        (
          if leb l.batch_size (length deciding)
              then some (take l.batch_size (keys deciding))
              else none,
          record l { requests = rest; deciding = deciding },
        )
  ]

  unfoldable pub view_change_propose : Log S O R → List Digest
  view_change_propose l = take l.batch_size (R.keys l.requests ++ keys l.deciding)

  unfoldable pub has_request : Log S O R → Digest → Bool
  has_request l digest = contains_key digest l.deciding || is_some (R.get digest l.requests)

  -- The stored request of a digest, of those being decided first.
  unfoldable pub find_request : Log S O R → Digest → Option (StoredRequest O)
  find_request l digest = or_else (get digest l.deciding) (R.get digest l.requests)

  unfoldable pub clone_requests : Log S O R → List Digest → List (StoredRequest O)
  unfolding find_request cons_some
  clone_requests l [] = []
  clone_requests l (d ∷ ds) = cons_some (find_request l d) (clone_requests l ds)

  -- `deciding.remove(digest).or_else(|| requests.remove(digest))`.
  unfoldable pub take_request : Log S O R → Digest → Log S O R
  take_request l digest =
      if contains_key digest l.deciding
      then record l { deciding = remove digest l.deciding }
      else record l { requests = R.remove digest l.requests }
