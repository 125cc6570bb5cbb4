-- ===== src/Message/Framing/Bytes.antt =====
-- Headers through their bytes (bft/communication/message/mod.rs).
use bafomet.Base.{
  ℕ, zero, suc, ◌*◌, ◌/◌, ◌%◌, ◌^◌, ◌<◌, ◌≤◌, Bool, true, false, ltb, List, [], ◌∷◌, ◌++◌, length,
  length-append, length-drop, take, drop, replicate, ok, ◌>>=◌, ◌≡◌, refl, sym, ap, ◌∙◌, arith,
}
use bafomet.Crypto.{to_le_bytes}
use bafomet.Message.{Header}
use bafomet.Message.Wire.{WireMessage, expect_ok}
use bafomet.Message.Framing.{
  from_le_bytes, header_length, header_bytes, serialize_into, serialize_into_unchecked,
  deserialize_from, deserialize_from_unchecked, AsyncWrite, write_to, write_payload, write_both,
  and_then, word,
}
use mathlib.Core.List.{append-nil, append_assoc}

pub length-to_le_bytes : (n x : ℕ) → length (to_le_bytes n x) ≡ n
unfolding to_le_bytes
length-to_le_bytes zero x = refl
length-to_le_bytes (suc n) x = ap suc (length-to_le_bytes n (x / 256))

take-to_le_bytes : (n x : ℕ) (rest : List ℕ) → take n (to_le_bytes n x ++ rest) ≡ to_le_bytes n x
unfolding to_le_bytes
take-to_le_bytes zero x rest = refl
take-to_le_bytes (suc n) x rest =
    ap (λ bytes. (x % 256) ∷ bytes) (take-to_le_bytes n (x / 256) rest)

drop-to_le_bytes : (n x : ℕ) (rest : List ℕ) → drop n (to_le_bytes n x ++ rest) ≡ rest
unfolding to_le_bytes
drop-to_le_bytes zero x rest = refl
drop-to_le_bytes (suc n) x rest = drop-to_le_bytes n (x / 256) rest

pub from_le_bytes-to_le_bytes : (n x : ℕ) → x < 256 ^ n → from_le_bytes (to_le_bytes n x) ≡ x
unfolding from_le_bytes to_le_bytes
from_le_bytes-to_le_bytes zero x h = ground arith
from_le_bytes-to_le_bytes (suc n) x h =
    let power : 256 ^ suc n ≡ 256 * 256 ^ n = ground arith in
    let shorter : x / 256 < 256 ^ n = omega (arith, power, h) in
    omega (arith, from_le_bytes-to_le_bytes n (x / 256) shorter)

-- The words of a header have the widths of its fields.
abbrev pub IsPacked : Header → Type 0
IsPacked h =
    (h.version < 2 ^ 32)
    × (h.from < 2 ^ 32)
    × (h.to < 2 ^ 32)
    × (h.nonce < 2 ^ 64)
    × (h.length < 2 ^ 64)
    × (h.digest < 256 ^ 32)
    × (h.signature < 256 ^ 64)

word-to_le_bytes : (n x : ℕ) (rest : List ℕ) → x < 256 ^ n → word n (to_le_bytes n x ++ rest) ≡ x
word-to_le_bytes n x rest h =
    ap from_le_bytes (take-to_le_bytes n x rest) ∙ from_le_bytes-to_le_bytes n x h

pub length-header_bytes : (h : Header) → length (header_bytes h) ≡ header_length
unfolding header_bytes
length-header_bytes h = simp (length-append, length-to_le_bytes) refl

-- A header is read back from its bytes, whatever comes behind them.
pub deserialize_from-header_bytes :
    (h : Header) (rest : List ℕ) → IsPacked h → deserialize_from (header_bytes h ++ rest) ≡ ok h
unfolding deserialize_from header_bytes deserialize_from_unchecked
deserialize_from-header_bytes h rest (pv, pf, pt, pn, pl, pd, ps) =
    let long : ltb (length (header_bytes h ++ rest)) header_length ≡ false =
      rw (length-append (header_bytes h) rest, length-header_bytes h) (ground arith) in
    rw (long) (
      simp (append_assoc, drop-to_le_bytes, take-to_le_bytes)
        (rw
          (
            from_le_bytes-to_le_bytes 4 h.version (ground (arith, pv)),
            from_le_bytes-to_le_bytes 4 h.from (ground (arith, pf)),
            from_le_bytes-to_le_bytes 4 h.to (ground (arith, pt)),
            from_le_bytes-to_le_bytes 8 h.nonce (ground (arith, pn)),
            from_le_bytes-to_le_bytes 8 h.length (ground (arith, pl)),
            from_le_bytes-to_le_bytes 32 h.digest pd,
          )
          (rw (from_le_bytes-to_le_bytes 64 h.signature ps) refl)))

pub deserialize_from_exact : (h : Header) → IsPacked h → deserialize_from (header_bytes h) ≡ ok h
deserialize_from_exact h packed =
    ap deserialize_from (sym (append-nil (header_bytes h)))
    ∙ deserialize_from-header_bytes h [] packed

-- A buffer that can hold a header, whose fields fit their words, is written the header at its
-- front and keeps its length, and the header is read back from it.
pub deserialize_from-serialize_into :
    (h : Header) (buf : List ℕ)
    → IsPacked h
    → header_length ≤ length buf
    → (out : List ℕ) × (serialize_into h buf ≡ ok out)
      × (length out ≡ length buf)
      × (deserialize_from out ≡ ok h)
unfolding serialize_into serialize_into_unchecked
deserialize_from-serialize_into h buf packed fits =
    let behind = drop header_length buf in
    let room : ltb (length buf) header_length ≡ false = ground (arith, fits) in
    (
      header_bytes h ++ behind,
      rw (room) refl,
      rw
          (
            length-append (header_bytes h) behind,
            length-header_bytes h,
            length-drop header_length buf,
          )
          (omega (arith, fits)),
      deserialize_from-header_bytes h behind packed,
    )

-- Enough bytes are always read as a header.
pub deserialize_from_long :
    (buf : List ℕ) → header_length ≤ length buf → (h : Header) × (deserialize_from buf ≡ ok h)
unfolding deserialize_from
deserialize_from_long buf enough =
    let long : ltb (length buf) header_length ≡ false = ground (arith, enough) in
    (deserialize_from_unchecked buf, rw (long) refl)

pub serialize_into_zeros :
    (h : Header) → serialize_into h (replicate header_length 0) ≡ ok (header_bytes h)
unfolding serialize_into serialize_into_unchecked
serialize_into_zeros h = ap ok (append-nil (header_bytes h))

module _ (A : AsyncWrite) where
  and_then-true :
      (r : Bool × A.Writer) (next : A.Writer → Bool × A.Writer) (after : A.Writer)
      → and_then A r next ≡ (true, after)
      → (w : A.Writer) × (r ≡ (true, w)) × (next w ≡ (true, after))
  and_then-true (false, w) next after e = cc
  and_then-true (true, w) next after e = (w, refl, e)

  write_payload-taken :
      (payload : List ℕ) (w after : A.Writer)
      → write_payload A payload w ≡ (true, after)
      → A.taken after ≡ A.taken w ++ payload
  unfolding write_payload
  write_payload-taken [] w after e =
      let same : w ≡ after = cc in ap A.taken (sym same) ∙ sym (append-nil (A.taken w))
  write_payload-taken (b ∷ bytes) w after e = A.write_all-taken w after (b ∷ bytes) e

  write_both-taken :
      (buf payload : List ℕ) (w after : A.Writer)
      → write_both A buf payload w ≡ (true, after)
      → A.taken after ≡ A.taken w ++ (buf ++ payload)
  unfolding write_both
  write_both-taken buf payload w after e =
      let (w1, e1, rest) = and_then-true (A.write_all w buf) _ after e in
      let (w2, e2, e3) = and_then-true (write_payload A payload w1) A.flush after rest in
      A.flush-taken w2 after e3
      ∙ write_payload-taken payload w1 w2 e2
      ∙ ap (λ bytes. bytes ++ payload) (A.write_all-taken w w1 buf e1)
      ∙ append_assoc (A.taken w) buf payload

  -- Writing a message never panics, and if it succeeds, the writer has taken the bytes of the
  -- header and the payload, in this order and nothing else.
  pub write_to-taken :
      (wm : WireMessage) (w : A.Writer)
      → (done : Bool × A.Writer) × (write_to A wm w ≡ ok done)
        × ((after : A.Writer)
            → done ≡ (true, after)
            → A.taken after ≡ A.taken w ++ (header_bytes wm.header ++ wm.payload))
  unfolding write_to
  write_to-taken wm w =
      let buf = header_bytes wm.header in
      (
        write_both A buf wm.payload w,
        ap (λ r. expect_ok r >>= (λ out. ok (write_both A out wm.payload w)))
            (serialize_into_zeros wm.header),
        λ after e. write_both-taken buf wm.payload w after e,
      )
