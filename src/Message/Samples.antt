-- ===== src/Message/Samples.antt =====
-- Stand-ins for the hash, the signatures and the sockets of other packages, for the tests: a hash
-- that adds up the bytes modulo 256, a signature that adds the key, and a writer that keeps what it is given.
use bafomet.Base.{ℕ, ◌+◌, ◌%◌, ◌==◌, Bool, true, ok, List, [], ◌∷◌, ◌++◌, ◌≡◌, sym, ap, arith}
use bafomet.Crypto.{Hash}
use bafomet.Message.Wire.{Signing}
use bafomet.Message.Framing.{AsyncWrite}

abbrev pub add_bytes : List ℕ → ℕ
add_bytes [] = 0
add_bytes (b ∷ bytes) = b + add_bytes bytes

abbrev pub adding : Hash
adding = record { hash = λ bytes. add_bytes bytes % 256; as_ref = λ d. d ∷ [] }

pub add_key :
    (k : ℕ) (bytes : List ℕ) (s : ℕ)
    → ok ((k + add_bytes bytes) % 256) ≡ ok s
    → ((k + add_bytes bytes) % 256 == s) ≡ true
add_key k bytes s e = ground (arith, e)

abbrev pub keyed : Signing
keyed = record {
  KeyPair = ℕ;
  PublicKey = ℕ;
  public_key = λ k. k;
  sign = λ k bytes. ok ((k + add_bytes bytes) % 256);
  verify = λ k bytes s. (k + add_bytes bytes) % 256 == s;
  verify-sign = add_key;
}

pub append_true :
    (w after bytes : List ℕ)
    → ◌≡◌ {A = Bool × List ℕ} (true, w ++ bytes) (true, after)
    → after ≡ w ++ bytes
append_true w after bytes e = sym (ap (λ r. r.1) e)

pub same_true : (w after : List ℕ) → ◌≡◌ {A = Bool × List ℕ} (true, w) (true, after) → after ≡ w
same_true w after e = sym (ap (λ r. r.1) e)

-- A writer that keeps what it is given.
abbrev pub kept : AsyncWrite
kept = record {
  Writer = List ℕ;
  write_all = λ w bytes. (true, w ++ bytes);
  flush = λ w. (true, w);
  taken = λ w. w;
  write_all-taken = append_true;
  flush-taken = same_true;
}
