-- ===== src/Signature/Tests.antt =====
-- A delivery signed in a toy world: numbers are natural, and the bytes of a text are the text.
use b2b_app.Prelude.{
  ℕ, ◌+◌, ◌-◌, ◌<◌, ◌≤◌, ◌≡◌, ◌↔◌, refl, String, Bool, true, false, not, none, some, eq_refl, arith,
  ltb, leb, str_eq, eq_iff, if◌then◌else◌,
}
use b2b_app.Signature.{
  SignatureScheme, verified, Crypto, VerifyOptions, verify_webhook_signature, check_signature,
  check_scheme, check_relay, check_timed, check_hmac, safe_equal_hex, is_within_window,
  parse_hex_value,
}
use b2b_app.Signature.Authentic.{IsTimely, verify_webhook_signature-IsTimely}
use b2b_app.Signature.Sending.{IsLawful, IsSent, verify_webhook_signature_iff}

abbrev measure : String → ℕ
measure s = if str_eq s "" then 0 else 1

abbrev toy : Crypto
toy = record {
  Double = ℕ;
  number = λ s. if str_eq s "100" then 100 else 0;
  is_finite = λ n. true;
  lt = ltb;
  le = leb;
  sub = λ m n. m - n;
  zero_double = 0;
  Bytes = String;
  from_hex = λ s. s;
  size = measure;
  timing_safe_equal = str_eq;
  trim = λ s. s;
  hmac = λ secret text. text;
}

abbrev delivery : VerifyOptions ℕ
delivery = record {
  raw_body = "{}";
  secret = "k";
  signature = some "sha256=100.{}";
  timestamp = some "100";
  scheme = SignatureScheme.relay;
  max_age_seconds = 300;
  now_seconds = 200;
}

delivery_verified : verify_webhook_signature toy delivery ≡ verified
unfolding verify_webhook_signature check_signature check_scheme check_relay check_timed check_hmac
    safe_equal_hex is_within_window parse_hex_value
delivery_verified = refl

verify_webhook_signature-IsTimely_example : IsTimely toy delivery
verify_webhook_signature-IsTimely_example =
    verify_webhook_signature-IsTimely toy delivery (λ p. cc) delivery_verified

-- A world whose numbers may be negative, with one digest.
data Signed : Type 0 where
  at_least : ℕ → Signed
  below_zero : ℕ → Signed

abbrev less : Signed → Signed → Bool
less (at_least m) (at_least n) = ltb m n
less (at_least m) (below_zero n) = false
less (below_zero m) (at_least n) = true
less (below_zero m) (below_zero n) = ltb n m

abbrev at_most : Signed → Signed → Bool
at_most a b = not (less b a)

abbrev minus : Signed → Signed → Signed
minus (at_least m) (at_least n) = if ltb m n then below_zero (n - m) else at_least (m - n)
minus a b = a

abbrev signed_world : Crypto
signed_world = record {
  Double = Signed;
  number = λ s. if str_eq s "100" then at_least 100 else at_least 0;
  is_finite = λ n. true;
  lt = less;
  le = at_most;
  sub = minus;
  zero_double = at_least 0;
  Bytes = String;
  from_hex = λ s. s;
  size = measure;
  timing_safe_equal = str_eq;
  trim = λ s. s;
  hmac = λ secret text. "c0ffee";
}

signed_world-IsLawful : IsLawful signed_world
signed_world-IsLawful = record {
  of_nat = at_least;
  limit = 1000;
  zero_nat = refl;
  finite_nat = λ n h. refl;
  le_nat = λ m n h h'. ground arith;
  lt_nat = λ m n h h'. refl;
  sub_nat = λ m n h h'. ground arith;
  sub_negative = λ m n h h'. ground arith;
  same_bytes = eq_refl;
  mac_bytes = λ k s p. omega (arith, p);
  mac_filled = λ k s p. ground (arith, eq_iff "c0ffee" "", p);
  mac_bare = λ k s. refl;
  mac_plain = λ k s. refl;
  mac_trim = λ k s. refl;
  trim_t = refl;
  trim_v1 = refl;
}

abbrev header_delivery : VerifyOptions Signed
header_delivery = record {
  raw_body = "{}";
  secret = "k";
  signature = some "t=100,v1=c0ffee";
  timestamp = none;
  scheme = SignatureScheme.stripe;
  max_age_seconds = at_least 300;
  now_seconds = at_least 200;
}

verify_webhook_signature_iff_example :
    (verify_webhook_signature signed_world header_delivery ≡ verified)
    ↔ ((0 < 100) × (100 ≤ 200) × (200 ≤ 100 + 300))
unfolding signed_world-IsLawful
verify_webhook_signature_iff_example =
    verify_webhook_signature_iff signed_world signed_world-IsLawful header_delivery "100" 100 200
      300 (IsSent.in_header refl refl refl refl) refl refl refl (omega arith) (omega arith)
      (omega arith)
