-- ===== src/Message/Wire/Tests.antt =====
-- A wire message that is signed with a key, the sum of its bytes in place of a signature.
use bafomet.Base.{some, ok, [], ◌∷◌, ◌≡◌, refl}
use bafomet.Crypto.{to_le_bytes}
use bafomet.Message.Wire.{WireMessage, digest_parts, sign_parts, new}
use bafomet.Message.Samples.{adding, keyed}

-- The digest 9 is signed in a message from 1 to 2, with key 100.
abbrev signed : WireMessage
signed = record {
  header = record {
    version = 0;
    from = 1;
    to = 2;
    nonce = 7;
    length = 2;
    digest = 9;
    signature = 120;
  };
  payload = 4 ∷ 5 ∷ [];
}

new-signed : new adding keyed 1 2 (4 ∷ 5 ∷ []) 7 (some 9) (some 100) ≡ ok signed
unfolding new sign_parts digest_parts to_le_bytes
new-signed = refl
