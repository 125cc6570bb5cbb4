-- ===== src/Cst/Process/States.antt =====
-- The state that is fetched was replied by more than f replicas (bft/cst/mod.rs).
use bafomet.Base.{
  ℕ, ◌+◌, ◌<◌, ◌==◌, [], some, Option-cases, ◌≡◌, ◌≢◌, ◌↔◌, refl, arith, inl, inr, Bool-cases,
  subst, sym, HashMap, get,
}
use bafomet.Collections.{OrderedMap}
use bafomet.Ordering.SeqNo.{SeqNo}
use bafomet.Message.{Digest, Header}
use bafomet.Message.System.{RecoveryState, CstMessage, take_state}
use bafomet.Core.Params.{quorum}
use bafomet.Core.View.{ViewInfo}
use bafomet.Log.Store.{StoredRequest, Log}
use bafomet.Cst.State.{receiving_state, ReceivedState, CollabStateTransfer, running, state, message}
use bafomet.Cst.Process.{quiet, count_state, best, choose_state, process_message}
use bafomet.Cst.Process.Best.{
  total, IsUnique, counts-le-total, total-count_state, IsUnique-insert, best-none, best-get,
  best-max,
}

module _ {S O : Type 0} where
  -- More than f replies of a quorum had the digest `d`, and `s` is the state that came with it.
  abbrev pub IsMajority :
      ViewInfo
      → HashMap (ReceivedState S O)
      → RecoveryState S O
      → Digest
      → ReceivedState S O
      → Type 0
  IsMajority view states s d r = (get d states ≡ some r) × (view.params.f < r.count) × (r.state ≡ s)

  choose_state_drops :
      (view : ViewInfo) (c : CollabStateTransfer S O)
      → (choose_state view c).cst.received_states ≡ []
  unfolding choose_state
  choose_state_drops view c = ground arith

  choose_state_sound :
      (view : ViewInfo) (c : CollabStateTransfer S O) (s : RecoveryState S O)
      → (choose_state view c).status ≡ state s
      → (d : Digest) × (r : ReceivedState S O) × IsMajority view c.received_states s d r
  unfolding choose_state
  choose_state_sound view c s e = elim (Option-cases (best c.received_states)) [
    | inl f ↦ absurd (ground (arith, e, f))
    | inr ((d, q), f) ↦ elim (Option-cases (get d c.received_states)) [
      | inl g ↦ absurd (ground (arith, e, f, g))
      | inr (r, g) ↦ (d, r, ground (arith, e, f, g))
    ]
  ]

  choose_state_complete :
      (view : ViewInfo) (c : CollabStateTransfer S O) (s : RecoveryState S O) (d : Digest)
      (r : ReceivedState S O)
      → IsUnique c.received_states
      → total c.received_states ≡ quorum view.params
      → IsMajority view c.received_states s d r
      → (choose_state view c).status ≡ state s
  unfolding choose_state
  choose_state_complete view c s d r u t (g, more, same) =
      elim (Option-cases (best c.received_states)) [
        | inl f ↦ absurd (ground (arith, g, best-none c.received_states d f))
        | inr ((e, q), f) ↦
            let found = best-get c.received_states e q u f in
            let largest = best-max c.received_states d e r q f g in
            elim (Bool-cases (d == e)) [
              | inl equal ↦ ground (arith, equal, f, found, g, more, same)
              | inr apart ↦ absurd (
                  omega (
                    arith,
                    counts-le-total c.received_states d e r q (λ p. ground (arith, p, apart)) g
                        found,
                    largest,
                    more,
                    t,
                  ))
            ]
      ]

  -- `i` states are counted, fewer than a quorum.
  abbrev pub IsCounted : ViewInfo → CollabStateTransfer S O → ℕ → Type 0
  IsCounted view c i =
      (i < quorum view.params) × (total c.received_states ≡ i) × IsUnique c.received_states

  count_state-IsUnique :
      (states : HashMap (ReceivedState S O)) (digest : Digest) (s : RecoveryState S O)
      → IsUnique states
      → IsUnique (count_state digest s states)
  unfolding count_state
  count_state-IsUnique states digest s u = IsUnique-insert states digest _ u

module _ {S O : Type 0} {R : OrderedMap (StoredRequest O)} (view : ViewInfo) where
  -- A state that has the number expected is counted, and short of a quorum the protocol goes on.
  pub process_message-IsCounted :
      (c : CollabStateTransfer S O) (own : SeqNo) (l : Log S O R) (h : Header) (m : CstMessage S O)
      (s : RecoveryState S O) (i : ℕ)
      → c.phase ≡ receiving_state i
      → m.seq ≡ c.cst_seq
      → take_state m ≡ some s
      → i + 1 ≢ quorum view.params
      → IsCounted view c i
      → ((process_message view c own l (message h m)).status ≡ running)
        × ((process_message view c own l (message h m)).cst.phase ≡ receiving_state (i + 1))
        × IsCounted view (process_message view c own l (message h m)).cst (i + 1)
  unfolding process_message
  process_message-IsCounted c own l h m s i p e k n (below, t, u) =
      let q : process_message view c own l (message h m)
          ≡ quiet running (record c {
            received_states = count_state h.digest s c.received_states;
            phase = receiving_state (i + 1);
          }) =
        ground (arith, p, e, k, n) in
      subst
        (λ r.
          (r.status ≡ running)
          × (r.cst.phase ≡ receiving_state (i + 1))
          × IsCounted view r.cst (i + 1))
        (sym q)
        (
          refl,
          refl,
          (
            omega (arith, n, below),
            omega (arith, total-count_state c.received_states h.digest s, t),
            count_state-IsUnique c.received_states h.digest s u,
          ),
        )

  -- The state that completes a quorum ends the round: a state is returned exactly if more than f of
  -- the replies had its digest, in whatever order the map gives its entries, and all received states
  -- are dropped.
  pub process_message-IsMajority :
      (c : CollabStateTransfer S O) (own : SeqNo) (l : Log S O R) (h : Header) (m : CstMessage S O)
      (s t : RecoveryState S O) (i : ℕ)
      → c.phase ≡ receiving_state i
      → m.seq ≡ c.cst_seq
      → take_state m ≡ some s
      → i + 1 ≡ quorum view.params
      → IsCounted view c i
      → (((process_message view c own l (message h m)).status ≡ state t) ↔ (
          (d : Digest) × (r : ReceivedState S O) × IsMajority view
            (count_state h.digest s c.received_states)
            t
            d
            r))
        × ((process_message view c own l (message h m)).cst.received_states ≡ [])
  unfolding process_message
  process_message-IsMajority c own l h m s t i p e k n (_, counted, u) =
      let c' = record c { received_states = count_state h.digest s c.received_states } in
      let q : process_message view c own l (message h m) ≡ choose_state view c' =
        ground (arith, p, e, k, n) in
      subst
        (λ r.
          ((r.status ≡ state t) ↔ (
            (d : Digest) × (r' : ReceivedState S O) × IsMajority view
              (count_state h.digest s c.received_states) t d r'))
          × (r.cst.received_states ≡ []))
        (sym q)
        (
          (
            choose_state_sound view c' t,
            λ (d, r, w).
                choose_state_complete view c' t d r
                  (count_state-IsUnique c.received_states h.digest s u)
                  (omega (arith, total-count_state c.received_states h.digest s, counted, n)) w,
          ),
          choose_state_drops view c',
        )
