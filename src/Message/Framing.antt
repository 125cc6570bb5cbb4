-- ===== src/Message/Framing.antt =====
-- The bytes of a header and what `WireMessage::write_to` writes
-- (bft/communication/message/mod.rs). `Header` is packed, with little-endian words, 32 bytes of
-- digest and 64 of signature. Its first word is padding, which is 0 in every header that is made.
pub mod Bytes
mod Tests
use bafomet.Base.{
  ℕ, zero, suc, ◌+◌, ◌*◌, Bool, true, false, if◌then◌else◌, ltb, Option, Result, ok, err, wrapped,
  communication_message, panic, ◌>>=◌, List, [], ◌∷◌, ◌++◌, length, take, drop, replicate, is_empty,
  ◌≡◌,
}
use bafomet.Crypto.{to_le_bytes}
use bafomet.Message.{Header}
use bafomet.Message.Wire.{WireMessage, expect_ok}

-- `from_le_bytes`, of a word of any length.
unfoldable pub from_le_bytes : List ℕ → ℕ
from_le_bytes [] = 0
from_le_bytes (b ∷ bytes) = b + 256 * from_le_bytes bytes

-- `Header::LENGTH`
abbrev pub header_length : ℕ
header_length = 128

unfoldable pub header_bytes : Header → List ℕ
header_bytes h =
    to_le_bytes 4 0
    ++ (to_le_bytes 4 h.version
        ++ (to_le_bytes 4 h.from
            ++ (to_le_bytes 4 h.to
                ++ (to_le_bytes 8 h.nonce
                    ++ (to_le_bytes 8 h.length
                        ++ (to_le_bytes 32 h.digest ++ to_le_bytes 64 h.signature))))))

-- The word of `n` bytes at the front.
abbrev word : ℕ → List ℕ → ℕ
word n bytes = from_le_bytes (take n bytes)

serialize_into_unchecked : Header → List ℕ → List ℕ
unfolding header_bytes
serialize_into_unchecked h buf = header_bytes h ++ drop header_length buf

-- The buffer is returned with the header written at its front.
unfoldable pub serialize_into : Header → List ℕ → Result (List ℕ)
unfolding serialize_into_unchecked
serialize_into h buf =
    if ltb (length buf) header_length
    then err (wrapped communication_message "Buffer is too short to serialize into")
    else ok (serialize_into_unchecked h buf)

deserialize_from_unchecked : List ℕ → Header
unfolding from_le_bytes
deserialize_from_unchecked buf =
    let at_version = drop 4 buf in
    let at_from = drop 4 at_version in
    let at_to = drop 4 at_from in
    let at_nonce = drop 4 at_to in
    let at_length = drop 8 at_nonce in
    let at_digest = drop 8 at_length in
    let at_signature = drop 32 at_digest in
    record {
      version = word 4 at_version;
      from = word 4 at_from;
      to = word 4 at_to;
      nonce = word 8 at_nonce;
      length = word 8 at_length;
      digest = word 32 at_digest;
      signature = word 64 at_signature;
    }

unfoldable pub deserialize_from : List ℕ → Result Header
unfolding deserialize_from_unchecked
deserialize_from buf =
    if ltb (length buf) header_length
    then err (wrapped communication_message "Buffer is too short to deserialize from")
    else ok (deserialize_from_unchecked buf)

-- `AsyncWrite`, of other packages: whether a call succeeds, and the writer after it. What a writer
-- has taken so far grows by the bytes of each successful call.
pub record AsyncWrite : Type 1 where
  pub Writer : Type 0
  pub write_all : Writer → List ℕ → Bool × Writer
  pub flush : Writer → Bool × Writer
  pub taken : Writer → List ℕ
  pub write_all-taken :
      (w after : Writer) (bytes : List ℕ)
      → write_all w bytes ≡ (true, after)
      → taken after ≡ taken w ++ bytes
  pub flush-taken : (w after : Writer) → flush w ≡ (true, after) → taken after ≡ taken w

module _ (A : AsyncWrite) where
  -- The `?` operator on the result of a call.
  abbrev and_then : Bool × A.Writer → (A.Writer → Bool × A.Writer) → Bool × A.Writer
  and_then (false, w) next = (false, w)
  and_then (true, w) next = next w

  write_payload : List ℕ → A.Writer → Bool × A.Writer
  write_payload payload w = if is_empty payload then (true, w) else A.write_all w payload

  -- The header, the payload if there is one, and the flush; the first error ends it.
  write_both : List ℕ → List ℕ → A.Writer → Bool × A.Writer
  unfolding write_payload
  write_both buf payload w =
      and_then (A.write_all w buf)
        (λ after_header. and_then (write_payload payload after_header) A.flush)

  unfoldable pub write_to : WireMessage → A.Writer → Result (Bool × A.Writer)
  unfolding serialize_into write_both
  write_to wm w = do
    buf ← expect_ok (serialize_into wm.header (replicate header_length 0))
    ok (write_both buf wm.payload w)
