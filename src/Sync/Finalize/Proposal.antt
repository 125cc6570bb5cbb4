-- ===== src/Sync/Finalize/Proposal.antt =====
-- What a replica proposes to itself at the end of a view change (bft/sync/mod.rs).
use bafomet.Base.{
  ℕ, ◌≤◌, true, leb, some, ok, ◌>>=◌, List, [], ◌∷◌, ◌++◌, length, last, drop, map, reverse, ◌≡◌,
  refl, arith,
}
use bafomet.Collections.{OrderedMap}
use bafomet.Crypto.{Hash}
use bafomet.Message.{NodeId, Digest, Header, pre_prepare, ConsensusMessage}
use bafomet.Message.Wire
use bafomet.Message.Wire.Valid.{new_unsigned}
use bafomet.Message.Wire.{Signing}
use bafomet.Core.View.{ViewInfo, leader}
use bafomet.Log.Decision.{Stored}
use bafomet.Log.Clear.Suffix.{proposal, cleared, clear_last_occurrences-cleared}
use bafomet.Log.Store.{Log, insert_consensus, push_consensus}
use bafomet.Consensus.State.{
  Consensus, preparing, forge_propose, new_message, copy_digests, proposed, finalize_view_change,
  vote_prepare,
}
use bafomet.Sync.Types.{StoredRequest, FinalizeState, init, new_view, Synchronizer, consensus}
use bafomet.Sync.Predicates.{sound_value}
use bafomet.Sync.Tbo
use bafomet.Sync.Finalize.{Node, Processed, proposal_or, finalize}

-- The digests that are proposed: those of the newest logged proposal with the digest that the
-- collects bind, and the ones that the leader gave if they bind none or it is not in this log.
abbrev pub decided_on :
    {S O : Type 0} {R : OrderedMap (StoredRequest O)} → FinalizeState → Log S O R → List Digest
decided_on st l =
    proposal_or (proposal st.curr_cid (sound_value st.sound) (reverse l.declog.pre_prepares))
      st.proposed

leb-true : {m n : ℕ} → m ≤ n → leb m n ≡ true
leb-true h = ground (arith, h)

last-snoc {ℓ} : {A : Type ℓ} (xs : List A) (x : A) → last (xs ++ x ∷ []) ≡ some x
last-snoc [] x = refl
last-snoc (y ∷ []) x = refl
last-snoc (y ∷ z ∷ xs) x = last-snoc (z ∷ xs) x

finalize_view_change-append :
    (me : NodeId) (view : ViewInfo) (c : Consensus) (d : Digest) (ps : List Stored) (m : Stored)
    (ds : List Digest)
    → m.message.kind ≡ pre_prepare ds
    → length ds ≤ length c.current
    → let c' : Consensus = record c {
      phase = preparing 1;
      current_digest = d;
      batch_size = length ds;
      current = ds ++ drop (length ds) c.current;
    } in
      finalize_view_change me view c d (ps ++ m ∷ []) ≡ ok (c', vote_prepare me view c')
unfolding finalize_view_change proposed copy_digests
finalize_view_change-append me view c d ps m ds k fits =
    rw (finalize_view_change, last-snoc ps m, k, proposed, copy_digests, leb-true fits) refl

module _ {S O : Type 0} {R : OrderedMap (StoredRequest O)} (H : Hash) (G : Signing)
    (node : Node G) where
  -- The proposal that a replica makes to itself in the name of the leader.
  abbrev pub forged : FinalizeState → Synchronizer O → Consensus → Log S O R → ConsensusMessage
  unfolding forge_propose new_message
  forged st s c l = forge_propose c (decided_on st l) s.tbo.view

  -- Its header, which is not signed.
  abbrev pub header_of : FinalizeState → Synchronizer O → Consensus → Log S O R → Header
  header_of st s c l =
      let d = node.serialize_digest (forged st s c l) in
      record {
        version = Wire.current_version;
        from = leader s.tbo.view;
        to = node.id;
        nonce = node.nonce;
        length = Wire.len_u64 d.1;
        digest = d.0;
        signature = 0;
      }

  abbrev pub accepted : FinalizeState → Synchronizer O → Consensus → Log S O R → Consensus
  accepted st s c l = record c {
    phase = preparing 1;
    current_digest = (node.serialize_digest (forged st s c l)).0;
    batch_size = length (decided_on st l);
    current = decided_on st l ++ drop (length (decided_on st l)) c.current;
  }

  -- The state at the end of a view change.
  abbrev pub finalized : FinalizeState → Synchronizer O → Consensus → Log S O R → Processed S O R
  finalized st s c l = record {
    status = new_view;
    sync = record s { tbo = Tbo.next_instance_queue s.tbo; phase = init };
    consensus_ = accepted st s c l;
    log = record l {
      declog = record l.declog {
        pre_prepares =
            cleared st.curr_cid l.declog.pre_prepares
            ++ record { header = header_of st s c l; message = forged st s c l } ∷ [];
        prepares = cleared st.curr_cid l.declog.prepares;
        commits = cleared st.curr_cid l.declog.commits;
      };
    };
    sent = map consensus (vote_prepare node.id s.tbo.view (accepted st s c l));
    timers = [];
  }

  -- If the batch fits, `finalize` ends the view change: the
  -- messages of the instance leave the log and the proposal enters it in the name of the leader, the
  -- consensus counts one PREPARE for that batch, and the queues move on to the next view.
  pub finalize_lem :
      (st : FinalizeState) (s : Synchronizer O) (c : Consensus) (l : Log S O R)
      → length (decided_on st l) ≤ length c.current
      → finalize H G node st s c l ≡ ok (finalized st s c l)
  unfolding finalize insert_consensus push_consensus forge_propose new_message finalize_view_change
      proposed copy_digests
  finalize_lem st s c l fits =
      rw
        (
          clear_last_occurrences-cleared l.declog st.curr_cid (sound_value st.sound),
          new_unsigned H G (leader s.tbo.view) node.id node.nonce
              (node.serialize_digest (forged st s c l)).1
              (node.serialize_digest (forged st s c l)).0,
          ◌>>=◌,
          finalize_view_change-append node.id s.tbo.view c
              (node.serialize_digest (forged st s c l)).0
              (cleared st.curr_cid l.declog.pre_prepares)
              (record { header = header_of st s c l; message = forged st s c l }) (decided_on st l)
              refl fits,
        )
        refl
