-- ===== src/Secrets/Tests.antt =====
-- Envelopes under a cipher that leaves its text as it is.
use b2b_app.Prelude.{◌≡◌, refl, ok}
use b2b_app.Secrets.{
  KeySource, encrypt_secret, decrypt_secret, derive_tenant_key, resolve_source, sealed_with,
  envelope_of, mask_secret,
}
use b2b_app.Secrets.Envelopes.{decrypt_secret-encrypt_secret}
use b2b_app.Secrets.Samples.{open_cipher}

masked : mask_secret "sk-secret-token-1234" ≡ "••••••••1234"
unfolding mask_secret
masked = refl

made :
    encrypt_secret open_cipher (KeySource.text "master") KeySource.absent "o" "iv" "a:b"
    ≡ ok "v1:yiyv:ytyayg:yaxyb"
unfolding encrypt_secret derive_tenant_key resolve_source sealed_with envelope_of
made = refl

decrypt_secret-encrypt_secret_example :
    decrypt_secret open_cipher (KeySource.text "master") KeySource.absent "o" "v1:yiyv:ytyayg:yaxyb"
    ≡ ok "a:b"
decrypt_secret-encrypt_secret_example =
    decrypt_secret-encrypt_secret open_cipher (KeySource.text "master") KeySource.absent "o" "iv"
      "a:b" "v1:yiyv:ytyayg:yaxyb" refl made
