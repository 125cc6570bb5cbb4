-- ===== src/Network/Connect/Handshake.antt =====
-- How a node that connects and a node that accepts meet (bft/communication/mod.rs).
use bafomet.Base.{
  ℕ, ◌^◌, ◌<◌, Bool, true, false, not, ◌&&◌, ◌||◌, if◌then◌else◌, leb, ◌==◌, some, ok, ◌>>=◌, List,
  [], ◌++◌, replicate, ◌≡◌, sym, ap, ◌∙◌, arith,
}
use mathlib.Core.List.{append_cancel_left, append_assoc}
use bafomet.Crypto.{Hash}
use bafomet.Message.{NodeId, Header}
use bafomet.Message.Wire.{Signing, expect_ok, from_parts, is_valid}
use bafomet.Message.Wire.Valid.{new_plain}
use bafomet.Message.Framing.{AsyncWrite, header_length, header_bytes, serialize_into}
use bafomet.Message.Framing.Bytes.{
  IsPacked, length-header_bytes, deserialize_from_exact, serialize_into_zeros,
}
use bafomet.Network.Receive.{AsyncRead}
use bafomet.Network.Receive.InOrder.{read_front}
use bafomet.Network.Connect.{Dialer, dialed, keep_if, greet}
use bafomet.Network.Connect.Accept.{
  Accepted, accepted, dropped, admit, read_greeting, rx_side_accept_task,
}

-- The header that a connection from `p` to `q` starts with.
abbrev pub greeting : NodeId → NodeId → ℕ → Header
greeting p q nonce = record {
  version = 0;
  from = p;
  to = q;
  nonce = nonce;
  length = 0;
  digest = 0;
  signature = 0;
}

module _ (A : AsyncWrite) where
  keep_if-dialed :
      (done : Bool × A.Writer) (after : A.Writer)
      → keep_if A done ≡ dialed after
      → done ≡ (true, after)
  unfolding keep_if
  keep_if-dialed (true, sock) after e = let same : sock ≡ after = cc in ap (λ s. (true, s)) same
  keep_if-dialed (false, sock) after e = cc

module _ (H : Hash) (G : Signing) (R : AsyncRead) (first_cli my_id : NodeId) where
  -- Which connections are accepted.
  abbrev pub admitted : NodeId → NodeId → R.Reader → Accepted R
  admitted p q sock =
      if (leb first_cli p && leb first_cli my_id) || not (q == my_id)
      then dropped
      else accepted p sock

  admit-greeting :
      (p q nonce : ℕ) (sock : R.Reader)
      → admit R first_cli my_id sock (from_parts H G (greeting p q nonce) [])
        ≡ ok (admitted p q sock)
  unfolding admit from_parts is_valid
  admit-greeting p q nonce sock = ground arith

  pub rx_side_accept_task-greeting :
      (p q nonce : ℕ) (r : R.Reader) (rest : List ℕ)
      → IsPacked (greeting p q nonce)
      → R.incoming r ≡ header_bytes (greeting p q nonce) ++ rest
      → (after : R.Reader) × (rx_side_accept_task H G R first_cli my_id (some r)
          ≡ ok (admitted p q after))
        × (R.incoming after ≡ rest)
  unfolding rx_side_accept_task read_greeting
  rx_side_accept_task-greeting p q nonce r rest packed e =
      let header = greeting p q nonce in
      let (after, read, left) = read_front R r (header_bytes header) rest e in
      let parsed = deserialize_from_exact header packed in
      (
        after,
        ap (λ n. read_greeting H G R first_cli my_id (R.read_exact r n))
              (sym (length-header_bytes header))
            ∙ ap (read_greeting H G R first_cli my_id) read
            ∙ ap (λ d. expect_ok d >>= (λ h. admit R first_cli my_id after (from_parts H G h [])))
                parsed
            ∙ admit-greeting p q nonce after,
        left,
      )

module _ (H : Hash) (G : Signing) (A : AsyncWrite) (C : Dialer A) (R : AsyncRead) where
  -- What a greeting leaves with the socket of the node that connects.
  greet-taken :
      (p q nonce : ℕ) (before after : A.Writer)
      → greet H G A C p q nonce (some before) ≡ ok (dialed after)
      → A.taken after ≡ A.taken before ++ header_bytes (greeting p q nonce)
  unfolding greet
  greet-taken p q nonce before after e =
      let buf = header_bytes (greeting p q nonce) in
      let sends : greet H G A C p q nonce (some before) ≡ ok (keep_if A (A.write_all before buf)) =
        ap
          (λ r. r >>= (λ wm.
            expect_ok (serialize_into wm.header (replicate header_length 0))
            >>= (λ out. ok (keep_if A (A.write_all before out)))))
          (new_plain H G p q nonce)
        ∙ ap (λ r. expect_ok r >>= (λ out. ok (keep_if A (A.write_all before out))))
            (serialize_into_zeros (greeting p q nonce)) in
      let kept : keep_if A (A.write_all before buf) ≡ dialed after = cc in
      A.write_all-taken before after buf (keep_if-dialed A (A.write_all before buf) after kept)

  -- A node `p` has connected to what it takes for node `q` and written its greeting, with ids and
  -- a nonce that fit their words, and another node's socket reads what `p` wrote and then `rest`.
  -- That node accepts the connection, as one of `p` with `rest` still to read, exactly if it is
  -- `q` and not both are clients; else it drops the connection.
  pub rx_side_accept_task-greet :
      (first_cli my_id p q nonce : ℕ) (before after : A.Writer) (r : R.Reader) (rest : List ℕ)
      → p < 2 ^ 32
      → q < 2 ^ 32
      → nonce < 2 ^ 64
      → greet H G A C p q nonce (some before) ≡ ok (dialed after)
      → A.taken after ++ rest ≡ A.taken before ++ R.incoming r
      → (left : R.Reader) × (rx_side_accept_task H G R first_cli my_id (some r)
          ≡ ok (admitted H G R first_cli my_id p q left))
        × (R.incoming left ≡ rest)
  rx_side_accept_task-greet first_cli my_id p q nonce before after r rest hp hq hn e shares =
      let buf = header_bytes (greeting p q nonce) in
      let reads : R.incoming r ≡ buf ++ rest =
        append_cancel_left (A.taken before) (R.incoming r) (buf ++ rest) (
          sym shares
          ∙ ap (λ bytes. bytes ++ rest) (greet-taken p q nonce before after e)
          ∙ append_assoc (A.taken before) buf rest) in
      rx_side_accept_task-greeting H G R first_cli my_id p q nonce r rest
        (
          omega arith,
          omega (arith, hp),
          omega (arith, hq),
          omega (arith, hn),
          omega arith,
          omega arith,
          omega arith,
        )
        reads
