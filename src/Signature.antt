-- ===== src/Signature.antt =====
-- lib/sig.ts: verification of a webhook's signature.
pub mod Authentic
pub mod Sending
mod Tests
use Prim.Native.Char.{Char, code}
use Prim.Native.String
use b2b_app.Prelude.{
  ℕ, String, Bool, true, false, not, ◌&&◌, ◌||◌, Option, none, some, List, [], ◌∷◌, ◌++◌,
  if◌then◌else◌, str_eq, ◌==◌,
}
use b2b_app.Prelude.Texts.{after_prefix, split}

pub data SignatureScheme : Type 0 where
  relay github stripe : SignatureScheme

pub data Reason : Type 0 where
  missing_signature missing_timestamp invalid_timestamp expired bad_signature malformed : Reason

pub data Verification : Type 0 where
  verified : Verification
  refused : Reason → Verification

-- What the code uses of JavaScript's numbers and of node:crypto: `Number(s)`, arithmetic on doubles,
-- the bytes of `Buffer.from(s, "hex")`, their comparison by `timingSafeEqual`, `trim`, and the HMAC
-- of a text in hex.
pub record Crypto : Type 1 where
  pub Double : Type 0
  pub number : String → Double
  pub is_finite : Double → Bool
  pub lt : Double → Double → Bool
  pub le : Double → Double → Bool
  pub sub : Double → Double → Double
  pub zero_double : Double
  pub Bytes : Type 0
  pub from_hex : String → Bytes
  pub size : Bytes → ℕ
  pub timing_safe_equal : Bytes → Bytes → Bool
  pub trim : String → String
  pub hmac : String → String → String

-- The options, with the defaults of `scheme` and of the window filled in by the caller.
pub record VerifyOptions (D : Type 0) : Type 0 where
  pub raw_body : String
  pub secret : String
  pub signature : Option String
  pub timestamp : Option String
  pub scheme : SignatureScheme
  pub max_age_seconds : D
  pub now_seconds : D

-- parseHexValue
unfoldable pub parse_hex_value : String → String
parse_hex_value s = elim (after_prefix "sha256=" s) [ none ↦ s | some rest ↦ rest ]

-- The two sides of the first "=", where there is one.
abbrev pub cut_from : String → String → Option (String × String)
cut_from name String.[] = none
cut_from name (String.◌∷◌ c s) =
    let rest = cut_from (String.◌++◌ name (String.◌∷◌ c String.[])) s in
    if code c == b'=' then some (name, s) else rest

abbrev pub signed_text : String → String → String
signed_text timestamp body = String.◌++◌ timestamp (String.◌++◌ "." body)

module _ (crypto : Crypto) where
  open crypto use {
    Double, number, is_finite, lt, le, sub, zero_double, from_hex, size, timing_safe_equal, trim,
    hmac,
  }

  -- safeEqualHex
  unfoldable pub safe_equal_hex : String → String → Bool
  safe_equal_hex a b =
      if not (size (from_hex a) == size (from_hex b)) || size (from_hex a) == 0
      then false
      else timing_safe_equal (from_hex a) (from_hex b)

  -- isWithinWindow
  unfoldable pub is_within_window : Double → Double → Double → Bool
  is_within_window timestamp max_age now =
      let age = sub now timestamp in
      if not (is_finite age) || lt age zero_double then false else le age max_age

  -- One part of the header; `eq > 0` asks for a name before the "=".
  abbrev pub set_pair : Option (String × String) → (String → Option String) → String → Option String
  set_pair none pairs k = pairs k
  set_pair (some (name, value)) pairs k =
      if str_eq name ""
      then pairs k
      else if str_eq (trim name) k
      then some (trim value)
      else pairs k

  -- The map of the header's pairs: a later pair replaces an earlier one.
  unfoldable pub pairs_from : List String → (String → Option String) → String → Option String
  pairs_from [] pairs k = pairs k
  pairs_from (part ∷ parts) pairs k = pairs_from parts (set_pair (cut_from "" part) pairs) k

  unfoldable pub header_pairs : String → String → Option String
  header_pairs signature k = pairs_from (split b',' signature) (λ j. none) k

  unfoldable pub check_hmac : VerifyOptions Double → String → String → Verification
  check_hmac o received text =
      if safe_equal_hex received (hmac o.secret text) then verified else refused bad_signature

  -- The checks that the two schemes with a timestamp share.
  unfoldable pub check_timed : VerifyOptions Double → String → String → Verification
  check_timed o timestamp received =
      let ts = number timestamp in
      if not (is_finite ts) || le ts zero_double
      then refused invalid_timestamp
      else if not (is_within_window ts o.max_age_seconds o.now_seconds)
      then refused expired
      else check_hmac o received (signed_text timestamp o.raw_body)

  unfoldable pub check_pairs : VerifyOptions Double → Option String → Option String → Verification
  check_pairs o (some t) (some v1) = check_timed o t v1
  check_pairs o (some t) none = refused malformed
  check_pairs o none v1 = refused malformed

  unfoldable pub check_relay : VerifyOptions Double → Option String → String → Verification
  check_relay o none signature = refused missing_timestamp
  check_relay o (some t) signature =
      if str_eq t "" then refused missing_timestamp else check_timed o t (parse_hex_value signature)

  unfoldable pub check_scheme : SignatureScheme → VerifyOptions Double → String → Verification
  check_scheme SignatureScheme.github o signature =
      check_hmac o (parse_hex_value signature) o.raw_body
  check_scheme SignatureScheme.stripe o signature =
      check_pairs o (header_pairs signature "t") (header_pairs signature "v1")
  check_scheme SignatureScheme.relay o signature = check_relay o o.timestamp signature

  unfoldable pub check_signature : VerifyOptions Double → Option String → Verification
  check_signature o none = refused missing_signature
  check_signature o (some signature) =
      if str_eq signature "" then refused missing_signature else check_scheme o.scheme o signature

  unfoldable pub verify_webhook_signature : VerifyOptions Double → Verification
  verify_webhook_signature o = check_signature o o.signature
