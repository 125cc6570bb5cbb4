-- ===== src/Message/Framing/Tests.antt =====
-- Headers as bytes, on concrete headers.
use bafomet.Base.{ℕ, ◌^◌, List, [], ◌∷◌, length, replicate, take, ok, ◌≡◌, refl, arith}
use bafomet.Crypto.{to_le_bytes}
use bafomet.Message.{Header}
use bafomet.Message.Wire.{WireMessage}
use bafomet.Message.Framing.{header_bytes, serialize_into, deserialize_from}
use bafomet.Message.Framing.Bytes.{deserialize_from-serialize_into}

abbrev sample : Header
sample = record {
  version = 0;
  from = 258;
  to = 3;
  nonce = 2 ^ 63;
  length = 2;
  digest = 77;
  signature = 2 ^ 500;
}

-- The words are little-endian, behind the padding.
header_bytes-front :
    take 12 (header_bytes sample) ≡ 0 ∷ 0 ∷ 0 ∷ 0 ∷ 0 ∷ 0 ∷ 0 ∷ 0 ∷ 2 ∷ 1 ∷ 0 ∷ 0 ∷ []
unfolding header_bytes to_le_bytes
header_bytes-front = refl

deserialize_from-serialize_into_example :
    (out : List ℕ) × (serialize_into sample (replicate 130 7) ≡ ok out)
    × (length out ≡ 130)
    × (deserialize_from out ≡ ok sample)
deserialize_from-serialize_into_example =
    deserialize_from-serialize_into sample (replicate 130 7)
      (
        ground arith,
        ground arith,
        ground arith,
        ground arith,
        ground arith,
        ground arith,
        ground arith,
      )
      (ground arith)

abbrev message : WireMessage
message = record { header = sample; payload = 4 ∷ 5 ∷ [] }
