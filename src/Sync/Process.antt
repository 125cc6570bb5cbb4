-- ===== src/Sync/Process.antt =====
-- `Synchronizer::process_message` (bft/sync/mod.rs), a helper for each phase.
pub mod Signed
pub mod Twice
pub mod Flagged
pub mod Phases
use bafomet.Base.{
  ℕ, ◌+◌, Bool, true, false, not, ltb, ◌==◌, if◌then◌else◌, Option, none, some, unwrap_or, Result,
  ok, panic, ◌>>=◌, List, [], ◌∷◌, ◌++◌, map, select, HashMap, contains_key, insert,
}
use bafomet.Collections.{OrderedMap}
use bafomet.Crypto.{Hash}
use bafomet.Ordering.SeqNo.{SeqNo, next, from_u32}
use bafomet.Ordering.Queue.{tbo_pop_message}
use bafomet.Message.{NodeId, Digest, Header, StoredMessage}
use bafomet.Message.System.{
  ViewChangeMessage, view_change, ViewChangeMessageKind, stop, stop_data, sync, Collects, Send,
  send, broadcast,
}
use bafomet.Message.Wire.{Signing}
use bafomet.Core.Params.{quorum}
use bafomet.Core.View.{ViewInfo, peek, next_view, leader}
use bafomet.Log.Types.{Proof, CollectData}
use bafomet.Log.Decision
use bafomet.Log.Store.{Log, view_change_propose}
use bafomet.Consensus.State.{Consensus, targets}
use bafomet.Sync.Types.{
  StoredRequest, StoredChange, view_of, kind_of, to_list, from_list, FinalizeState, ProtoPhase,
  init, stopping, stopping2, stopping_data, syncing, syncing_state, SynchronizerStatus, idle,
  running, SynchronizerPollStatus, recv, next_message, resume_view_change, Queues, Synchronizer,
  Outgoing, change, Timer,
}
use bafomet.Sync.Tbo
use bafomet.Sync.Predicates.{collect_data, normalized_collects, sound, sound_test}
use bafomet.Sync.Proofs.{signed_collects, highest_proof}
use bafomet.Sync.Watch.{watch_all_requests, install_view}
use bafomet.Sync.Stops.{begin_view_change, add_stopped_requests}
use bafomet.Sync.Finalize.{Node, Processed, finish_change}

module _ {O : Type 0} where
  -- The macro `stop_status`
  unfoldable pub stop_status : Synchronizer O → ℕ → SynchronizerStatus
  stop_status s i = if ltb s.tbo.view.params.f i then running else idle

  queue_stop : Synchronizer O → Header → ViewChangeMessage O → Synchronizer O
  queue_stop s h m = record s { tbo = Tbo.queue_stop s.tbo h m }

  queue_stop_data : Synchronizer O → Header → ViewChangeMessage O → Synchronizer O
  queue_stop_data s h m = record s { tbo = Tbo.queue_stop_data s.tbo h m }

  queue_sync : Synchronizer O → Header → ViewChangeMessage O → Synchronizer O
  queue_sync s h m = record s { tbo = Tbo.queue_sync s.tbo h m }

  -- In `Init` every message waits.
  queue_any :
      Synchronizer O → Header → ViewChangeMessage O → ViewChangeMessageKind O → Synchronizer O
  queue_any s h m (stop _) = queue_stop s h m
  queue_any s h m (stop_data _) = queue_stop_data s h m
  queue_any s h m (sync _ _) = queue_sync s h m

-- The instance after the one of the highest proof. The sum is of `u32`.
unfoldable pub next_cid : Option Proof → SeqNo
next_cid none = 0
next_cid (some p) = from_u32 (p.pre_prepare.message.seq + 1)

abbrev pub values {ℓ} : {A : Type ℓ} → HashMap A → List A
values = map (λ e. e.1)

module _ {S O : Type 0} {R : OrderedMap (StoredRequest O)} (H : Hash) (G : Signing) (node : Node G)
    (now : ℕ) where
  -- Only the view change protocol changes.
  abbrev pub only : SynchronizerStatus → Synchronizer O → Consensus → Log S O R → Processed S O R
  only status s c l = record {
    status = status;
    sync = s;
    consensus_ = c;
    log = l;
    sent = [];
    timers = [];
  }

  -- A quorum of STOP messages has come in.
  unfoldable pub change_view : Synchronizer O → Consensus → Log S O R → Result (Processed S O R)
  change_view s c l = do
    let added = add_stopped_requests H s l
    let watched = watch_all_requests now added.0
    let s1 = install_view (next_view watched.0.tbo.view) watched.0
    let view = s1.tbo.view
    let s2 = record s1 { phase = if not (node.id == leader view) then syncing else stopping_data 0 }
    collect ← Decision.collect_data added.1.declog view
    ok (record {
      status = running;
      sync = s2;
      consensus_ = c;
      log = added.1;
      sent = change (send (view_change view.seq (stop_data collect)) (leader view)) ∷ [];
      timers = watched.1;
    })

  -- The `i`th STOP message for the next view, which was stored; `first` before this replica has sent
  -- its own.
  unfoldable pub count_stop :
      Bool → ℕ → Synchronizer O → Consensus → Log S O R → Result (Processed S O R)
  unfolding change_view
  count_stop first i s c l =
      if first
      then (if ltb s.tbo.view.params.f i
          then (let r = begin_view_change H none s in
              ok (record (only running r.0 c l) { sent = r.1 }))
          else ok (only idle (record s { phase = stopping i }) c l))
      else (if i == quorum s.tbo.view.params
          then change_view s c l
          else ok (only running (record s { phase = stopping2 i }) c l))

  unfoldable pub process_stopping :
      Bool
      → ℕ
      → Synchronizer O
      → Consensus
      → Log S O R
      → Header
      → ViewChangeMessage O
      → ViewChangeMessageKind O
      → Result (Processed S O R)
  unfolding queue_stop queue_stop_data queue_sync stop_status count_stop
  process_stopping first i s c l h m (stop requests) =
      if not (view_of m == next s.tbo.view.seq)
      then ok (only (stop_status s i) (queue_stop s h m) c l)
      else if contains_key h.from s.stopped
      then ok (only (stop_status s i) s c l)
      else count_stop first (i + 1) (record s { stopped = insert h.from requests s.stopped }) c l
  process_stopping first i s c l h m (stop_data _) =
      ok (only (stop_status s i) (queue_stop_data s h m) c l)
  process_stopping first i s c l h m (sync _ _) = ok (only (stop_status s i) (queue_sync s h m) c l)

  -- The new leader has the collects of a quorum.
  unfoldable pub lead_change : Synchronizer O → Consensus → Log S O R → Result (Processed S O R)
  unfolding next_cid
  lead_change s c l =
      let view = s.tbo.view in
      let collects = values s.collects in
      let curr_cid = next_cid (highest_proof H G node.get_public_key view collects) in
      let snd = sound view (normalized_collects curr_cid (collect_data collects)) in
      if not (sound_test snd) then ok (only running (record s { collects = [] }) c l) else (do
        let p = view_change_propose l
        r ← finish_change H G node (record { curr_cid = curr_cid; proposed = p; sound = snd }) s c l
        ok (record r {
          sent =
              change (
                broadcast (view_change view.seq (sync p (from_list collects)))
                  (select (λ id. not (id == node.id)) (targets view)))
              ∷ r.sent;
        }))

  -- A STOP-DATA message that is stored.
  unfoldable pub count_data :
      ℕ
      → Synchronizer O
      → Consensus
      → Log S O R
      → Header
      → ViewChangeMessage O
      → Result (Processed S O R)
  unfolding lead_change
  count_data i s c l h m =
      let s' = record s {
        collects = insert h.from (record { header = h; message = m }) s.collects;
      } in
      if not (i + 1 == quorum s.tbo.view.params)
      then ok (only running (record s' { phase = stopping_data (i + 1) }) c l)
      else lead_change s' c l

  unfoldable pub process_stopping_data :
      ℕ
      → Synchronizer O
      → Consensus
      → Log S O R
      → Header
      → ViewChangeMessage O
      → ViewChangeMessageKind O
      → Result (Processed S O R)
  unfolding queue_stop queue_stop_data queue_sync count_data
  process_stopping_data i s c l h m (stop _) = ok (only running (queue_stop s h m) c l)
  process_stopping_data i s c l h m (stop_data _) =
      if not (view_of m == s.tbo.view.seq)
      then ok (
          only running
            (if leader (peek s.tbo.view (view_of m)) == node.id then queue_stop_data s h m else s) c
            l)
      else if not (leader s.tbo.view == node.id)
      then ok (only running s c l)
      else if contains_key h.from s.collects
      then ok (only running s c l)
      else count_data i s c l h m
  process_stopping_data i s c l h m (sync _ _) = ok (only running (queue_sync s h m) c l)

  -- A SYNC message of the leader, whose computation is repeated.
  unfoldable pub follow_change :
      List Digest
      → List (StoredChange O)
      → Synchronizer O
      → Consensus
      → Log S O R
      → Result (Processed S O R)
  unfolding next_cid
  follow_change proposed collects s c l =
      let view = s.tbo.view in
      let signed = signed_collects H G node.get_public_key collects in
      let curr_cid = next_cid (highest_proof H G node.get_public_key view signed) in
      let snd = sound view (normalized_collects curr_cid (collect_data signed)) in
      if not (sound_test snd)
      then ok (only running s c l)
      else finish_change H G node (record { curr_cid = curr_cid; proposed = proposed; sound = snd })
          s c l

  process_syncing :
      Synchronizer O
      → Consensus
      → Log S O R
      → Header
      → ViewChangeMessage O
      → ViewChangeMessageKind O
      → Result (Processed S O R)
  unfolding queue_stop queue_stop_data queue_sync follow_change
  process_syncing s c l h m (stop _) = ok (only running (queue_stop s h m) c l)
  process_syncing s c l h m (stop_data _) = ok (only running (queue_stop_data s h m) c l)
  process_syncing s c l h m (sync proposed collects) =
      if not (view_of m == s.tbo.view.seq)
      then ok (only running (queue_sync s h m) c l)
      else if not (h.from == leader s.tbo.view)
      then ok (only running s c l)
      else follow_change proposed (to_list collects) s c l

  process_phase :
      ProtoPhase
      → Synchronizer O
      → Consensus
      → Log S O R
      → Header
      → ViewChangeMessage O
      → Result (Processed S O R)
  unfolding queue_any queue_stop queue_stop_data queue_sync process_stopping process_stopping_data
      process_syncing
  process_phase init s c l h m = ok (only idle (queue_any s h m (kind_of m)) c l)
  process_phase (stopping i) s c l h m = process_stopping true i s c l h m (kind_of m)
  process_phase (stopping2 i) s c l h m = process_stopping false i s c l h m (kind_of m)
  process_phase (stopping_data i) s c l h m = process_stopping_data i s c l h m (kind_of m)
  process_phase syncing s c l h m = process_syncing s c l h m (kind_of m)
  process_phase syncing_state s c l h m = panic

  -- `process_message` at the time `now`.
  unfoldable pub process_message :
      Synchronizer O
      → Consensus
      → Log S O R
      → Header
      → ViewChangeMessage O
      → Result (Processed S O R)
  unfolding process_phase
  process_message s c l h m = process_phase s.phase s c l h m
