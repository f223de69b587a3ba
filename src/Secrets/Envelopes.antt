-- ===== src/Secrets/Envelopes.antt =====
-- Envelopes, made and opened.
use b2b_app.Prelude.{
  ◌≡◌, refl, sym, ap, ◌∙◌, String, true, [], ◌∷◌, ◌==◌, ==_iff, Result, ok, err, str_eq, Bool-cases,
  inl, inr,
}
use b2b_app.Prelude.Texts.{split, split-join}
use b2b_app.Secrets.{
  SecretError, Ciphers, KeySource, cipher_version, envelope_of, sealed_with, encrypt_secret,
  unseal_with, decrypt_parts, decrypt_segments, decrypt_secret,
}

module _ (node : Ciphers) where
  open node use {
    Bytes, size, seal, unseal, to_base64url, from_base64url, unseal-seal, size-tag,
    from_base64url-to_base64url, plain_base64url,
  }

  decrypt-envelope_of :
      (key : Result SecretError Bytes) (iv ciphertext tag : Bytes)
      → decrypt_segments node key (split b':' (envelope_of node iv (ciphertext, tag)))
        ≡ decrypt_parts node key iv tag ciphertext
  unfolding envelope_of decrypt_segments
  decrypt-envelope_of key iv ciphertext tag =
      ap (decrypt_segments node key) (
        split-join ":" cipher_version
          (to_base64url iv ∷ to_base64url tag ∷ to_base64url ciphertext ∷ [])
          (rw (plain_base64url iv, plain_base64url tag, plain_base64url ciphertext) refl))
      ∙ (rw
          (
            from_base64url-to_base64url iv,
            from_base64url-to_base64url tag,
            from_base64url-to_base64url ciphertext,
          )
          refl)

  opened :
      (key : Bytes) (iv : Bytes) (s : String)
      → size iv ≡ 12
      → decrypt_parts node (ok key) iv (seal key iv s).1 (seal key iv s).0 ≡ ok s
  unfolding unseal_with
  opened key iv s long =
      let tag : (size (seal key iv s).1 == 16) ≡ true = (==_iff _ 16).1 (size-tag key iv s) in
      let first : (size iv == 12) ≡ true = (==_iff _ 12).1 long in
      rw (tag, first, unseal-seal key iv s) refl

  sealed_opened :
      (key : Result SecretError Bytes) (iv : Bytes) (plaintext envelope : String)
      → size iv ≡ 12
      → sealed_with node key iv plaintext ≡ ok envelope
      → decrypt_segments node key (split b':' envelope) ≡ ok plaintext
  unfolding sealed_with
  sealed_opened (err e) iv plaintext envelope long h = cc
  sealed_opened (ok key) iv plaintext envelope long h =
      let made : envelope_of node iv (seal key iv plaintext) ≡ envelope = cc in
      ap (λ x. decrypt_segments node (ok key) (split b':' x)) (sym made)
      ∙ decrypt-envelope_of (ok key) iv (seal key iv plaintext).0 (seal key iv plaintext).1
      ∙ opened key iv plaintext long

  -- A secret that `encryptSecret` has sealed, with an iv of 12 bytes, is given back by
  -- `decryptSecret` for the same organization and the same master key.
  pub decrypt_secret-encrypt_secret :
      (environment master : KeySource Bytes) (org : String) (iv : Bytes)
      (plaintext envelope : String)
      → size iv ≡ 12
      → encrypt_secret node environment master org iv plaintext ≡ ok envelope
      → decrypt_secret node environment master org envelope ≡ ok plaintext
  unfolding encrypt_secret decrypt_secret
  decrypt_secret-encrypt_secret environment master org iv plaintext envelope long e =
      elim (Bool-cases (str_eq org "")) [
        | inl empty ↦ let e' = rw empty at e in cc
        | inr filled ↦ sealed_opened _ iv plaintext envelope long (rw filled at e)
      ]
