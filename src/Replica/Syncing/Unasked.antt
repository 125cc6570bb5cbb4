-- ===== src/Replica/Syncing/Unasked.antt =====
-- A view change that needs the state of others (bft/core/server/mod.rs).
use bafomet.Base.{ℕ, Bool, ok, ◌>>=◌, ok-Okay, List, ◌≡◌, refl, subst}
use bafomet.Collections.{OrderedMap}
use bafomet.Crypto.{Hash}
use bafomet.Message.{Header}
use bafomet.Message.System.{cst, ViewChangeMessage, CstMessage}
use bafomet.Message.Wire.{Signing}
use bafomet.Cst.State as CstState
use bafomet.Cst.State.{CollabStateTransfer}
use bafomet.Cst.Process.Requests.{process_message_idle}
use bafomet.Sync.Types.{StoredRequest, ask_cst}
use bafomet.Sync.Finalize.{Node, Processed}
use bafomet.Sync.Process.{process_message}
use bafomet.Replica.Types.{retrieving_state, Replica, system, Effect, Updated}
use bafomet.Replica.Retrieving as Retrieving
use bafomet.Replica.Retrieving.{cst_status, cst_received, update_retrieving_state}
use bafomet.Replica.Syncing.{
  invalid_state, with_processed, sync_status, sync_effects, change_received,
}

module _ {S O P : Type 0} {R : OrderedMap (StoredRequest O)} (H : Hash) (now : ℕ) where
  -- A replica that retrieves state, but has asked for none, fails at the first message of the state
  -- transfer.
  update_retrieving_state_unasked :
      (r : Replica S O R) (h : Header) (m : CstMessage S O)
      → r.cst.phase ≡ CstState.init
      → let u : Updated S O P R = update_retrieving_state H now r (system h (cst m)) in
        u ≡ invalid_state
  unfolding update_retrieving_state Retrieving.system_received cst_received cst_status
  update_retrieving_state_unasked r h m e =
      rw (process_message_idle r.synchronizer.tbo.view r.cst r.consensus.tbo.curr_seq r.log h m e)
        refl

module _ {S O P : Type 0} {R : OrderedMap (StoredRequest O)} (H : Hash) (G : Signing)
    (node : Node G) (now : ℕ) where
  -- When a view change needs the state of others and no state transfer runs, the replica waits for
  -- the state but nobody is asked for it, and the first message of the state transfer that comes in
  -- ends the replica with an error.
  pub change_received_unasked :
      (r : Replica S O R) (h h' : Header) (m : ViewChangeMessage O) (m' : CstMessage S O)
      (p : Processed S O R) (u : Bool × Replica S O R × List (Effect S O P))
      → process_message H G node now r.synchronizer r.consensus r.log h m ≡ ok p
      → p.status ≡ ask_cst
      → r.cst.phase ≡ CstState.init
      → change_received H G node now r h m ≡ ok u
      → let next : Updated S O P R = update_retrieving_state H now u.1 (system h' (cst m')) in
        (u.1.phase ≡ retrieving_state)
        × (u.1.cst ≡ r.cst)
        × (u.2 ≡ sync_effects p)
        × (next ≡ invalid_state)
  unfolding change_received sync_status with_processed
  change_received_unasked r h h' m m' p u f s i e =
      let w = with_processed r p in
      let sent : List (Effect S O P) = sync_effects p in
      let e1 : sync_status p.status w sent ≡ ok u =
        subst (λ x. (x >>= λ p. sync_status p.status (with_processed r p) (sync_effects p)) ≡ ok u)
          f e in
      let e2 : sync_status ask_cst w sent ≡ ok u = subst (λ x. sync_status x w sent ≡ ok u) s e1 in
      ok-Okay
        (λ u.
          let next : Updated S O P R = update_retrieving_state H now u.1 (system h' (cst m')) in
          (u.1.phase ≡ retrieving_state)
          × (u.1.cst ≡ r.cst)
          × (u.2 ≡ sent)
          × (next ≡ invalid_state))
        _ (refl, refl, refl, update_retrieving_state_unasked H now _ h' m' i) u e2
