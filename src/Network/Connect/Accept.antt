-- ===== src/Network/Connect/Accept.antt =====
-- Accepting a connection (bft/communication/mod.rs).
use bafomet.Base.{
  ℕ, not, ◌&&◌, if◌then◌else◌, leb, ◌==◌, Option, none, some, Result, ok, err, panic, ◌>>=◌, List,
  [],
}
use bafomet.Crypto.{Hash}
use bafomet.Message.{NodeId}
use bafomet.Message.Wire.{Signing, WireMessage, expect_ok, from_parts}
use bafomet.Message.Framing.{header_length, deserialize_from}
use bafomet.Network.Receive.{AsyncRead}

-- How a task that accepts ends: with the peer and the socket of `ConnectedRx`, or with
-- `DisconnectedRx(None)`.
pub data Accepted (R : AsyncRead) : Type 0 where
  accepted : NodeId → R.Reader → Accepted R
  dropped : Accepted R

module _ (R : AsyncRead) (first_cli my_id : NodeId) where
  -- The guards on a header that is valid.
  unfoldable pub admit : R.Reader → Result WireMessage → Result (Accepted R)
  admit sock (ok wm) =
      if leb first_cli wm.header.from && leb first_cli my_id
      then ok dropped
      else if not (wm.header.to == my_id)
      then ok dropped
      else ok (accepted wm.header.from sock)
  admit sock (err _) = ok dropped
  admit sock panic = panic

module _ (H : Hash) (G : Signing) (R : AsyncRead) (first_cli my_id : NodeId) where
  unfoldable pub read_greeting : Option (List ℕ × R.Reader) → Result (Accepted R)
  unfolding admit
  read_greeting none = ok dropped
  read_greeting (some (buf_header, sock)) = do
    header ← expect_ok (deserialize_from buf_header)
    admit R first_cli my_id sock (from_parts H G header [])

  -- The socket is what the TLS handshake gives, if it succeeds.
  unfoldable pub rx_side_accept_task : Option R.Reader → Result (Accepted R)
  unfolding read_greeting
  rx_side_accept_task none = ok dropped
  rx_side_accept_task (some sock) = read_greeting (R.read_exact sock header_length)
