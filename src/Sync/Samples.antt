-- ===== src/Sync/Samples.antt =====
-- Stand-ins for the parameters of the tests: a hash, signatures and a node of a view of four.
use bafomet.Base.{ℕ, ◌+◌, ◌==◌, true, some, ok, List, [], ◌∷◌, ◌≡◌, arith}
use bafomet.Crypto.{Hash}
use bafomet.Message.Wire.{Signing}
use bafomet.Core.View.{ViewInfo}
use bafomet.Sync.Finalize.{Node}

abbrev pub sum : List ℕ → ℕ
sum [] = 0
sum (x ∷ xs) = x + sum xs

abbrev pub sums : Hash
sums = record { hash = sum; as_ref = λ d. d ∷ [] }

pub zero_signed : (k : ℕ) (bytes : List ℕ) (s : ℕ) → ok 0 ≡ ok s → (s == 0) ≡ true
zero_signed k bytes s e = ground (arith, e)

-- Every signature is zero.
abbrev pub zeros : Signing
zeros = record {
  KeyPair = ℕ;
  PublicKey = ℕ;
  public_key = λ k. k;
  sign = λ k bytes. ok 0;
  verify = λ k bytes s. s == 0;
  verify-sign = zero_signed;
}

abbrev pub node : Node zeros
node = record {
  id = 0;
  get_public_key = λ id. some id;
  serialize_digest = λ m. (m.seq, m.view ∷ []);
  nonce = 5;
}

abbrev pub view : ViewInfo
view = record { seq = 0; params = record { n = 4; f = 1 } }
