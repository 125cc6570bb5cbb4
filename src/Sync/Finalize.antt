-- ===== src/Sync/Finalize.antt =====
-- The end of a view change: `pre_finalize`, `finalize` and `resume_view_change` (bft/sync/mod.rs).
pub mod Ended
pub mod Proposal
use bafomet.Base.{
  ℕ, Bool, true, false, not, ◌&&◌, ◌==◌, if◌then◌else◌, is_empty, unwrap_or, Option, none, some,
  Result, ok, ◌>>=◌, List, [], map,
}
use bafomet.Collections.{OrderedMap}
use bafomet.Crypto.{Hash}
use bafomet.Message.{NodeId, Digest, ConsensusMessage, take_proposed_requests}
use bafomet.Message.Wire
use bafomet.Message.Wire.{Signing, WireMessage}
use bafomet.Core.View.{leader}
use bafomet.Log.Decision.{Stored, executing}
use bafomet.Log.Clear.{clear_last_occurrences}
use bafomet.Log.Store.{Log, insert_consensus}
use bafomet.Consensus.State.{Consensus, forge_propose}
use bafomet.Consensus.State
use bafomet.Sync.Types.{
  StoredRequest, FinalizeState, FinalizeStatus, no_value, run_cst, commit_value, ProtoPhase, init,
  stopping, stopping2, stopping_data, syncing, syncing_state, SynchronizerStatus, running, new_view,
  ask_cst, Synchronizer, Outgoing, consensus, Timer,
}
use bafomet.Sync.Predicates.{sound_value, sound_test}
use bafomet.Sync.Tbo

-- What the protocol asks of its node: its id, the keys of the nodes, the digest and the bytes of a
-- message (`serialize_digest`), and the next random number.
pub record Node (G : Signing) : Type 0 where
  pub id : NodeId
  pub get_public_key : NodeId → Option G.PublicKey
  pub serialize_digest : ConsensusMessage → Digest × List ℕ
  pub nonce : ℕ

-- The state after a message.
pub record Processed (S O : Type 0) (R : OrderedMap (StoredRequest O)) : Type 0 where
  pub status : SynchronizerStatus
  pub sync : Synchronizer O
  pub consensus_ : Consensus
  pub log : Log S O R
  pub sent : List (Outgoing O)
  pub timers : List Timer

is_syncing : ProtoPhase → Bool
is_syncing syncing = true
is_syncing init = false
is_syncing (stopping _) = false
is_syncing (stopping2 _) = false
is_syncing (stopping_data _) = false
is_syncing syncing_state = false

-- The requests of the message that was found, or those given.
abbrev pub proposal_or : Option Stored → List Digest → List Digest
proposal_or none proposed = proposed
proposal_or (some m) proposed = unwrap_or (take_proposed_requests m.message).0 proposed

module _ {S O : Type 0} {R : OrderedMap (StoredRequest O)} where
  unfoldable pub pre_finalize : Synchronizer O → Log S O R → FinalizeState → FinalizeStatus
  unfolding is_syncing
  pre_finalize s l state =
      if is_syncing s.phase && not (executing l.declog == state.curr_cid)
      then run_cst state
      else if is_empty state.proposed && not (sound_test state.sound)
      then no_value
      else commit_value state

module _ {S O : Type 0} {R : OrderedMap (StoredRequest O)} (H : Hash) (G : Signing)
    (node : Node G) where
  unfoldable pub finalize :
      FinalizeState → Synchronizer O → Consensus → Log S O R → Result (Processed S O R)
  finalize state s c l = do
    cleared ← clear_last_occurrences l.declog state.curr_cid (sound_value state.sound)
    let m = forge_propose c (proposal_or cleared.0 state.proposed) s.tbo.view
    let d = node.serialize_digest m
    wm ← Wire.new H G (leader s.tbo.view) node.id d.1 node.nonce (some d.0) none
    let l' = insert_consensus (record l { declog = cleared.1 }) wm.header m
    r ← State.finalize_view_change node.id s.tbo.view c d.0 l'.declog.pre_prepares
    ok (record {
      status = new_view;
      sync = record s { tbo = Tbo.next_instance_queue s.tbo; phase = init };
      consensus_ = r.0;
      log = l';
      sent = map consensus r.1;
      timers = [];
    })

  -- The macro `finalize_view_change`; in every case the collects are cleared.
  unfoldable pub finish_change :
      FinalizeState → Synchronizer O → Consensus → Log S O R → Result (Processed S O R)
  unfolding pre_finalize finalize
  finish_change state s c l =
      let s' = record s { collects = [] } in
      elim (pre_finalize s l state) [
        | no_value ↦ ok (record {
          status = running;
          sync = s';
          consensus_ = c;
          log = l;
          sent = [];
          timers = [];
        })
        | run_cst st ↦ ok (record {
          status = ask_cst;
          sync = record s' { finalize_state = some st; phase = syncing_state };
          consensus_ = c;
          log = l;
          sent = [];
          timers = [];
        })
        | commit_value st ↦ finalize st s' c l
      ]

  -- `None` if there is no state that was put aside.
  unfoldable pub resume_view_change :
      Synchronizer O → Consensus → Log S O R → Result (Option (Processed S O R))
  unfolding finish_change
  resume_view_change s c l = elim s.finalize_state [
    | none ↦ ok none
    | some state ↦ finish_change state (record s { finalize_state = none }) c l >>= λ r. ok (some r)
  ]
