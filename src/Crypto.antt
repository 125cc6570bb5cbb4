-- ===== src/Crypto.antt =====
-- bft/crypto/hash/mod.rs and the unique digest of bft/communication/message/mod.rs. The hash
-- itself is SHA-2 or BLAKE3, of other packages: a parameter.
use bafomet.Base.{ℕ, zero, suc, ◌/◌, ◌%◌, List, [], ◌∷◌, ◌++◌}
use bafomet.Message.{Digest, Header}

-- The hash of a sequence of bytes, and the bytes of a digest.
pub record Hash : Type 0 where
  pub hash : List ℕ → Digest
  pub as_ref : Digest → List ℕ

-- `Context`: what has been fed to the hash so far.
pub record Context : Type 0 where
  pub fed : List ℕ

abbrev pub create : Context
create = record { fed = [] }

abbrev pub update : Context → List ℕ → Context
update c bytes = record { fed = c.fed ++ bytes }

-- `to_le_bytes` of a word of `n` bytes.
unfoldable pub to_le_bytes : ℕ → ℕ → List ℕ
to_le_bytes zero x = []
to_le_bytes (suc n) x = (x % 256) ∷ to_le_bytes n (x / 256)

module _ (H : Hash) where
  abbrev pub finish : Context → Digest
  finish c = H.hash c.fed

  unfoldable pub entropy : Digest → List ℕ → Digest
  entropy d nonce = finish (update (update create nonce) (H.as_ref d))

  unfoldable pub unique_digest : Header → Digest
  unfolding entropy
  unique_digest h = entropy h.digest (to_le_bytes 8 h.nonce)
