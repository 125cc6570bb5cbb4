-- ===== src/Message/Wire/Valid.antt =====
-- What the check of a wire message says (bft/communication/message/mod.rs).
use bafomet.Base.{
  ◌∙◌, ℕ, true, Option, none, some, Result, ok, err, panic, >>=-eq-ok, >>=-ok, ap, List, [], length,
  ◌≡◌, refl, arith, subst,
}
use bafomet.Crypto.{Hash}
use bafomet.Message.{NodeId, Digest}
use bafomet.Message.Wire.{
  Signing, WireMessage, signature_of, current_version, len_u64, digest_or_zeros, digest_parts,
  sign_parts, verify_parts, new, is_valid, from_parts, expect_ok,
}

expect_ok-ok {ℓ} : {A : Type ℓ} (r : Result A) (a : A) → expect_ok r ≡ ok a → r ≡ ok a
expect_ok-ok (ok b) a e = e
expect_ok-ok (err _) a e = cc
expect_ok-ok panic a e = cc

module _ (H : Hash) (G : Signing) where
  -- A message that was made with a key pair is valid for the public key of the pair and for none,
  -- so that it can be put together again from its header and payload.
  pub is_valid-new :
      (from to : NodeId) (payload : List ℕ) (nonce : ℕ) (digest : Option Digest) (k : G.KeyPair)
      (wm : WireMessage)
      → new H G from to payload nonce digest (some k) ≡ ok wm
      → (is_valid H G wm (some (G.public_key k)) ≡ true)
        × (from_parts H G wm.header wm.payload ≡ ok wm)
  unfolding new is_valid sign_parts verify_parts from_parts
  is_valid-new from to payload nonce digest k wm e =
      let d = digest_or_zeros digest in
      let bytes = H.as_ref (digest_parts H from to nonce (H.as_ref d)) in
      let (s, signed, built) = >>=-eq-ok (sign_parts H G k from to nonce (H.as_ref d)) _ e in
      let law = G.verify-sign k bytes s (expect_ok-ok (G.sign k bytes) s signed) in
      let made : WireMessage = record {
        header = record {
          version = current_version;
          from = from;
          to = to;
          nonce = nonce;
          length = len_u64 payload;
          digest = d;
          signature = s;
        };
        payload = payload;
      } in
      let same : made ≡ wm = ground (arith, built) in
      subst
        (λ w.
          (is_valid H G w (some (G.public_key k)) ≡ true)
          × (from_parts H G w.header w.payload ≡ ok w))
        same (ground (arith, law), ground arith)

  -- The check reads nothing of the payload but its length: any other payload of that length is as
  -- valid under the same header, whoever signed it, since nothing compares the digest with it.
  pub is_valid_payload :
      (wm : WireMessage) (payload : List ℕ) (pk : Option G.PublicKey)
      → length payload ≡ length wm.payload
      → is_valid H G (record wm { payload = payload }) pk ≡ is_valid H G wm pk
  unfolding is_valid
  is_valid_payload wm payload pk e = rw e refl

  -- Without a key a message is always put together.
  pub new_unsigned :
      (from to nonce : ℕ) (payload : List ℕ) (d : Digest)
      → new H G from to payload nonce (some d) none
        ≡ ok (record {
          header = record {
            version = current_version;
            from = from;
            to = to;
            nonce = nonce;
            length = len_u64 payload;
            digest = d;
            signature = 0;
          };
          payload = payload;
        })
  unfolding new signature_of digest_or_zeros
  new_unsigned from to nonce payload d = refl

  -- Without a digest and a payload too, as at the start of a connection.
  pub new_plain :
      (from to nonce : ℕ)
      → new H G from to [] nonce none none
        ≡ ok (record {
          header = record {
            version = current_version;
            from = from;
            to = to;
            nonce = nonce;
            length = 0;
            digest = 0;
            signature = 0;
          };
          payload = [];
        })
  unfolding new signature_of digest_or_zeros
  new_plain from to nonce = refl

  -- The fields of a message that is made.
  abbrev pub IsMade : NodeId → NodeId → List ℕ → ℕ → Option Digest → WireMessage → Type 0
  IsMade from to payload nonce digest wm =
      (wm.header.version ≡ current_version)
      × (wm.header.from ≡ from)
      × (wm.header.to ≡ to)
      × (wm.header.nonce ≡ nonce)
      × (wm.header.length ≡ len_u64 payload)
      × (wm.header.digest ≡ digest_or_zeros digest)
      × (wm.payload ≡ payload)

  pub new-IsMade :
      (from to : NodeId) (payload : List ℕ) (nonce : ℕ) (digest : Option Digest)
      (sk : Option G.KeyPair) (wm : WireMessage)
      → new H G from to payload nonce digest sk ≡ ok wm
      → IsMade from to payload nonce digest wm
  unfolding new
  new-IsMade from to payload nonce digest sk wm e =
      let d = digest_or_zeros digest in
      let (s, signed, built) = >>=-eq-ok (signature_of H G sk from to nonce d) _ e in
      ground (arith, built)

  -- The signature of a message that is made with a key is one that the key gave.
  pub new-signature :
      (from to : NodeId) (payload : List ℕ) (nonce : ℕ) (digest : Option Digest) (k : G.KeyPair)
      (wm : WireMessage)
      → new H G from to payload nonce digest (some k) ≡ ok wm
      → (bytes : List ℕ) × (G.sign k bytes ≡ ok wm.header.signature)
  unfolding new signature_of sign_parts
  new-signature from to payload nonce digest k wm e =
      let d = digest_or_zeros digest in
      let bytes = H.as_ref (digest_parts H from to nonce (H.as_ref d)) in
      let (s, signed, built) = >>=-eq-ok (sign_parts H G k from to nonce (H.as_ref d)) _ e in
      let same : s ≡ wm.header.signature = ground (arith, built) in
      (bytes, expect_ok-ok (G.sign k bytes) s signed ∙ ap ok same)

  -- A message can be made when its signature can.
  pub new_signed :
      (from to : NodeId) (payload : List ℕ) (nonce : ℕ) (digest : Option Digest) (k : G.KeyPair)
      → ((bytes : List ℕ) → (s : ℕ) × (G.sign k bytes ≡ ok s))
      → (wm : WireMessage) × (new H G from to payload nonce digest (some k) ≡ ok wm)
  unfolding new signature_of sign_parts
  new_signed from to payload nonce digest k signs =
      let d = digest_or_zeros digest in
      let bytes = H.as_ref (digest_parts H from to nonce (H.as_ref d)) in
      let (s, signed) = signs bytes in
      >>=-ok (sign_parts H G k from to nonce (H.as_ref d)) _ s (ap expect_ok signed) (_, refl)
