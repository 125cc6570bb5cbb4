-- ===== src/Network/Receive.antt =====
-- The task that `handle_connected_rx` spawns to receive from a peer (bft/communication/mod.rs).
pub mod Framed
pub mod InOrder
use bafomet.Base.{
  ℕ, zero, suc, Bool, false, ◌^◌, if◌then◌else◌, ◌<◌, ◌≤◌, Option, none, some, Result, ok, err,
  panic, ◌>>=◌, List, [], ◌∷◌, length, take, drop, ◌≡◌,
}
use mathlib.Core.Option
use bafomet.Message.{NodeId, Header}
use bafomet.Message.System.{SystemMessage}
use bafomet.Message.Wire.{expect_ok}
use bafomet.Message.Framing.{header_length, deserialize_from}
use bafomet.Replica.Types.{Incoming, system, disconnected_rx}
use bafomet.Network.Types.{SharedData}

-- `AsyncRead`, of other packages: `read_exact` with the bytes that are still to come until the
-- connection is closed or fails. If they are too few, it is an error. `reserves` tells for which
-- lengths `SmallVec::reserve` on the empty buffer succeeds; its capacity overflows if the next power
-- of two does not fit 64 bits.
pub record AsyncRead : Type 1 where
  pub Reader : Type 0
  pub read_exact : Reader → ℕ → Option (List ℕ × Reader)
  pub incoming : Reader → List ℕ
  pub reserves : ℕ → Bool
  pub read_exact-some :
      (r : Reader) (n : ℕ)
      → n ≤ length (incoming r)
      → (after : Reader) × (read_exact r n ≡ some (take n (incoming r), after))
        × (incoming after ≡ drop n (incoming r))
  pub reserves-overflow : (n : ℕ) → 2 ^ 63 < n → reserves n ≡ false
  pub read_exact-none : (r : Reader) (n : ℕ) → length (incoming r) < n → read_exact r n ≡ none

module _ (R : AsyncRead) {S O P : Type 0} (D : SharedData S O P) where
  -- The message of a header, and the reader behind it; `none` is one of the `break`s.
  read_payload : Header → Option (List ℕ × R.Reader) → Option (Incoming S O P × R.Reader)
  read_payload header none = none
  read_payload header (some (buf, r)) =
      Option.map (λ message. (system header message, r)) (D.deserialize_message buf)

  read_both : Option (List ℕ × R.Reader) → Result (Option (Incoming S O P × R.Reader))
  unfolding read_payload
  read_both none = ok none
  read_both (some (buf, r)) = do
    header ← expect_ok (deserialize_from buf)
    if R.reserves header.length
        then ok (read_payload header (R.read_exact r header.length))
        else panic

  -- One round of the loop.
  unfoldable pub receive_one : R.Reader → Result (Option (Incoming S O P × R.Reader))
  unfolding read_both
  receive_one r = read_both (R.read_exact r header_length)

  go_on :
      NodeId
      → (R.Reader → Option (List (Incoming S O P) × Result (Unit {0})))
      → Result (Option (Incoming S O P × R.Reader))
      → Option (List (Incoming S O P) × Result (Unit {0}))
  go_on peer_id next panic = some ([], panic)
  go_on peer_id next (err e) = some ([], err e)
  go_on peer_id next (ok none) = some (disconnected_rx (some peer_id) ∷ [], ok tt)
  go_on peer_id next (ok (some (m, r))) = Option.map (λ rest. (m ∷ rest.0, rest.1)) (next r)

  -- What is posted until the task ends, and how it ends. The fuel bounds the rounds; without any left
  -- it is `none`.
  unfoldable pub receive_loop :
      ℕ → NodeId → R.Reader → Option (List (Incoming S O P) × Result (Unit {0}))
  unfolding receive_one go_on
  receive_loop zero peer_id r = none
  receive_loop (suc fuel) peer_id r = go_on peer_id (receive_loop fuel peer_id) (receive_one r)
