-- ===== src/Message/Wire.antt =====
-- `WireMessage` (bft/communication/message/mod.rs). The signatures are those of another package
-- (bft/crypto/signature/mod.rs wraps it), so they stand here by their operations and the one law
-- that is relied on.
pub mod Valid
mod Tests
use bafomet.Base.{
  ℕ, ◌%◌, ◌^◌, Bool, true, false, not, ◌||◌, ◌==◌, if◌then◌else◌, Option, none, some, Result, ok,
  err, panic, ◌>>=◌, simple, communication_message, List, length, ◌≡◌,
}
use bafomet.Crypto
use bafomet.Crypto.{Hash, Context, update, finish, to_le_bytes}
use bafomet.Message.{NodeId, Digest, Header}

pub record Signing : Type 1 where
  pub KeyPair : Type 0
  pub PublicKey : Type 0
  pub public_key : KeyPair → PublicKey
  pub sign : KeyPair → List ℕ → Result ℕ
  pub verify : PublicKey → List ℕ → ℕ → Bool
  pub verify-sign :
      (k : KeyPair) (bytes : List ℕ) (s : ℕ)
      → sign k bytes ≡ ok s
      → verify (public_key k) bytes s ≡ true

-- A message is the bytes of its payload, with their header.
pub record WireMessage : Type 0 where
  pub header : Header
  pub payload : List ℕ

abbrev pub current_version : ℕ
current_version = 0

-- `payload.len() as u64`
abbrev pub len_u64 : List ℕ → ℕ
len_u64 payload = length payload % 2 ^ 64

-- `Result::unwrap`
abbrev pub expect_ok {ℓ} : {A : Type ℓ} → Result A → Result A
expect_ok (ok a) = ok a
expect_ok (err _) = panic
expect_ok panic = panic

unfoldable pub digest_or_zeros : Option Digest → Digest
digest_or_zeros none = 0
digest_or_zeros (some d) = d

module _ (H : Hash) where
  unfoldable pub digest_parts : NodeId → NodeId → ℕ → List ℕ → Digest
  digest_parts from to nonce payload =
      let ctx = update Crypto.create (to_le_bytes 4 current_version) in
      let ctx = update ctx (to_le_bytes 4 from) in
      let ctx = update ctx (to_le_bytes 4 to) in
      let ctx = update ctx (to_le_bytes 8 nonce) in
      let ctx = update ctx (to_le_bytes 8 (len_u64 payload)) in finish H (update ctx payload)

module _ (H : Hash) (G : Signing) where
  unfoldable pub sign_parts : G.KeyPair → NodeId → NodeId → ℕ → List ℕ → Result ℕ
  sign_parts sk from to nonce payload =
      expect_ok (G.sign sk (H.as_ref (digest_parts H from to nonce payload)))

  unfoldable pub verify_parts : G.PublicKey → ℕ → NodeId → NodeId → ℕ → List ℕ → Bool
  verify_parts pk sig from to nonce payload =
      G.verify pk (H.as_ref (digest_parts H from to nonce payload)) sig

  -- The signature of a message without a key is zeros.
  signature_of : Option G.KeyPair → NodeId → NodeId → ℕ → Digest → Result ℕ
  signature_of none from to nonce digest = ok 0
  signature_of (some sk) from to nonce digest = sign_parts sk from to nonce (H.as_ref digest)

  -- `WireMessage::new`
  unfoldable pub new :
      NodeId → NodeId → List ℕ → ℕ → Option Digest → Option G.KeyPair → Result WireMessage
  unfolding signature_of digest_or_zeros
  new from to payload nonce digest sk = do
    let d = digest_or_zeros digest
    signature ← signature_of sk from to nonce d
    ok (record {
      header = record {
        version = current_version;
        from = from;
        to = to;
        nonce = nonce;
        length = len_u64 payload;
        digest = d;
        signature = signature;
      };
      payload = payload;
    })

  verified : Header → Option G.PublicKey → Bool
  verified h none = true
  verified h (some pk) = verify_parts pk h.signature h.from h.to h.nonce (H.as_ref h.digest)

  unfoldable pub is_valid : WireMessage → Option G.PublicKey → Bool
  unfolding verified
  is_valid wm public_key =
      if not (wm.header.version == current_version) || not (wm.header.length == len_u64 wm.payload)
      then false
      else verified wm.header public_key

  unfoldable pub from_parts : Header → List ℕ → Result WireMessage
  unfolding is_valid
  from_parts header payload =
      let wm : WireMessage = record { header = header; payload = payload } in
      if not (is_valid wm none) then err (simple communication_message) else ok wm
