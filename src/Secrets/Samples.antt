-- ===== src/Secrets/Samples.antt =====
-- A cipher that leaves its text as it is.
use b2b_app.Prelude.{ℕ, refl, String, some, if◌then◌else◌, str_eq}
use b2b_app.Prelude.Escapes.{escape, unescape, unescape-escape, escape_plain}
use b2b_app.Secrets.{Ciphers}

abbrev pub sizes : String → ℕ
sizes s = if str_eq s "iv" then 12 else if str_eq s "tag" then 16 else 32

abbrev pub open_cipher : Ciphers
open_cipher = record {
  Bytes = String;
  size = sizes;
  sha256 = λ s. s;
  utf8 = λ s. s;
  hkdf = λ ikm salt info n. salt;
  seal = λ key iv s. (s, "tag");
  unseal = λ key iv tag s. some s;
  from_base64 = λ s. s;
  to_base64url = escape;
  from_base64url = unescape;
  unseal-seal = λ key iv s. refl;
  size-tag = λ key iv s. refl;
  from_base64url-to_base64url = unescape-escape;
  plain_base64url = escape_plain;
}
