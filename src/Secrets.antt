-- ===== src/Secrets.antt =====
-- lib/crypto.ts: secrets under a key of their organization, as envelopes of text.
pub mod Envelopes
pub mod Samples
mod Tests
use Prim.Native.Char.{code}
use Prim.Native.String
use b2b_app.Prelude.{
  ℕ, zero, suc, ◌+◌, ◌-◌, ◌≡◌, String, Bool, true, false, not, ◌&&◌, Option, none, some, List, [],
  ◌∷◌, if◌then◌else◌, str_eq, ◌==◌, leb, min, Result, ok, err,
}
use b2b_app.Prelude.Texts.{◌+++◌, split, join, has_char}

-- One constructor for each error that is thrown.
pub data SecretError : Type 0 where
  not_configured : SecretError
  bad_key_length : ℕ → SecretError
  empty_organization : SecretError
  malformed_envelope : SecretError
  bad_lengths : SecretError
  authentication_failed : SecretError

-- What node:crypto and Buffer do. `seal` is the cipher's text and its authentication tag.
pub record Ciphers : Type 1 where
  pub Bytes : Type 0
  pub size : Bytes → ℕ
  pub sha256 : String → Bytes
  pub utf8 : String → Bytes
  pub hkdf : Bytes → Bytes → Bytes → ℕ → Bytes
  pub seal : Bytes → Bytes → String → Bytes × Bytes
  pub unseal : Bytes → Bytes → Bytes → Bytes → Option String
  pub from_base64 : String → Bytes
  pub to_base64url : Bytes → String
  pub from_base64url : String → Bytes
  pub unseal-seal :
      (key iv : Bytes) (s : String) → unseal key iv (seal key iv s).1 (seal key iv s).0 ≡ some s
  pub size-tag : (key iv : Bytes) (s : String) → size (seal key iv s).1 ≡ 16
  pub from_base64url-to_base64url : (b : Bytes) → from_base64url (to_base64url b) ≡ b
  pub plain_base64url : (b : Bytes) → has_char b':' (to_base64url b) ≡ false

-- A master key: absent, a text or a buffer.
pub data KeySource (B : Type 0) : Type 0 where
  absent : KeySource B
  text : String → KeySource B
  buffer : B → KeySource B

abbrev pub cipher_version : String
cipher_version = "v1"

module _ (node : Ciphers) where
  open node use {
    Bytes, size, sha256, utf8, hkdf, seal, unseal, from_base64, to_base64url, from_base64url,
  }

  abbrev pub checked_key : Bytes → Result SecretError Bytes
  checked_key raw = if size raw == 32 then ok raw else err (bad_key_length (size raw))

  -- resolveMasterKey, where `environment` is the value of MASTER_ENCRYPTION_KEY.
  unfoldable pub resolve_source : KeySource Bytes → Result SecretError Bytes
  resolve_source KeySource.absent = err not_configured
  resolve_source (KeySource.text s) =
      if str_eq s "" then err not_configured else checked_key (from_base64 s)
  resolve_source (KeySource.buffer b) = checked_key b

  -- value ?? process.env.MASTER_ENCRYPTION_KEY
  abbrev pub or_environment : KeySource Bytes → KeySource Bytes → KeySource Bytes
  or_environment environment KeySource.absent = environment
  or_environment environment (KeySource.text s) = KeySource.text s
  or_environment environment (KeySource.buffer b) = KeySource.buffer b

  abbrev pub resolve_master_key : KeySource Bytes → KeySource Bytes → Result SecretError Bytes
  resolve_master_key environment value = resolve_source (or_environment environment value)

  abbrev pub kdf_salt : String → Bytes
  kdf_salt org = sha256 ("relayflow:org:" +++ org)

  abbrev pub tenant_key : String → Bytes → Bytes
  tenant_key org ikm = hkdf ikm (kdf_salt org) (utf8 "relayflow:secret:v1") 32

  abbrev pub derived : String → Result SecretError Bytes → Result SecretError Bytes
  derived org (err e) = err e
  derived org (ok ikm) = ok (tenant_key org ikm)

  -- deriveTenantKey
  unfoldable pub derive_tenant_key :
      KeySource Bytes → KeySource Bytes → String → Result SecretError Bytes
  derive_tenant_key environment master org = derived org (resolve_master_key environment master)

  -- The text of a version, an iv, a tag and a cipher's text.
  unfoldable pub envelope_of : Bytes → Bytes × Bytes → String
  envelope_of iv (ciphertext, tag) =
      join ":" (cipher_version ∷ to_base64url iv ∷ to_base64url tag ∷ to_base64url ciphertext ∷ [])

  unfoldable pub sealed_with : Result SecretError Bytes → Bytes → String → Result SecretError String
  sealed_with (err e) iv plaintext = err e
  sealed_with (ok key) iv plaintext = ok (envelope_of iv (seal key iv plaintext))

  -- encryptSecret; the iv is drawn at random.
  unfoldable pub encrypt_secret :
      KeySource Bytes → KeySource Bytes → String → Bytes → String → Result SecretError String
  encrypt_secret environment master org iv plaintext =
      if str_eq org ""
      then err empty_organization
      else sealed_with (derive_tenant_key environment (or_environment environment master) org) iv
          plaintext

  abbrev pub unsealed : Option String → Result SecretError String
  unsealed none = err authentication_failed
  unsealed (some s) = ok s

  unfoldable pub unseal_with :
      Result SecretError Bytes → Bytes → Bytes → Bytes → Result SecretError String
  unseal_with (err e) iv tag ciphertext = err e
  unseal_with (ok key) iv tag ciphertext = unsealed (unseal key iv tag ciphertext)

  abbrev pub decrypt_parts :
      Result SecretError Bytes → Bytes → Bytes → Bytes → Result SecretError String
  decrypt_parts key iv tag ciphertext =
      if (size iv == 12) && (size tag == 16)
      then unseal_with key iv tag ciphertext
      else err bad_lengths

  unfoldable pub decrypt_segments :
      Result SecretError Bytes → List String → Result SecretError String
  decrypt_segments key (version ∷ iv ∷ tag ∷ ciphertext ∷ []) =
      if str_eq version cipher_version
      then decrypt_parts key (from_base64url iv) (from_base64url tag) (from_base64url ciphertext)
      else err malformed_envelope
  decrypt_segments key _ = err malformed_envelope

  -- decryptSecret
  unfoldable pub decrypt_secret :
      KeySource Bytes → KeySource Bytes → String → String → Result SecretError String
  decrypt_secret environment master org envelope =
      decrypt_segments (derive_tenant_key environment (or_environment environment master) org)
        (split b':' envelope)

-- The number of characters, what is behind the first n of them, and a character repeated.
abbrev pub text_length : String → ℕ
text_length String.[] = 0
text_length (String.◌∷◌ c s) = suc (text_length s)

abbrev pub text_behind : ℕ → String → String
text_behind n String.[] = ""
text_behind n (String.◌∷◌ c s) = if n == 0 then String.◌∷◌ c s else text_behind (n - 1) s

abbrev pub dots : ℕ → String
dots zero = ""
dots (suc n) = String.◌∷◌ "•" (dots n)

-- maskSecret
unfoldable pub mask_secret : String → String
mask_secret value =
    if leb (text_length value) 8
    then dots (min (text_length value) 6)
    else dots 8 +++ text_behind (text_length value - 4) value
