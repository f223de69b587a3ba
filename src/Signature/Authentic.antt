-- ===== src/Signature/Authentic.antt =====
-- Which deliveries are accepted.
use b2b_app.Prelude.{
  ◌≡◌, ◌≢◌, inl, inr, refl, String, true, false, Option, none, some, str_eq, Bool-cases, arith,
  eq_iff,
}
use b2b_app.Signature.{
  SignatureScheme, verified, Crypto, VerifyOptions, parse_hex_value, safe_equal_hex,
  is_within_window, header_pairs, check_hmac, signed_text, check_timed, check_pairs, check_relay,
  check_scheme, check_signature, verify_webhook_signature,
}

module _ (crypto : Crypto) where
  open crypto use {
    Double, number, is_finite, lt, le, sub, zero_double, from_hex, size, timing_safe_equal, hmac,
  }

  -- A positive time that lies at most `maxAgeSeconds` in the past, and not in the future.
  pub record IsFresh (o : VerifyOptions Double) (timestamp : String) : Type 0 where
    pub finite_time : is_finite (number timestamp) ≡ true
    pub positive : le (number timestamp) zero_double ≡ false
    pub finite_age : is_finite (sub o.now_seconds (number timestamp)) ≡ true
    pub past : lt (sub o.now_seconds (number timestamp)) zero_double ≡ false
    pub recent : le (sub o.now_seconds (number timestamp)) o.max_age_seconds ≡ true

  -- The signature is that of the text under the secret, byte by byte, and is not empty.
  pub record IsSigned (o : VerifyOptions Double) (received text : String) : Type 0 where
    pub filled : size (from_hex received) ≢ 0
    pub same_size : size (from_hex received) ≡ size (from_hex (hmac o.secret text))
    pub same_bytes : timing_safe_equal (from_hex received) (from_hex (hmac o.secret text)) ≡ true

  -- What a delivery shows: the timestamp that its text is signed with, and the signature in hex.
  pub data IsShown (o : VerifyOptions Double) : String → String → Type 0 where
    by_relay :
        {signature timestamp : String}
        → o.scheme ≡ SignatureScheme.relay
        → o.signature ≡ some signature
        → o.timestamp ≡ some timestamp
        → timestamp ≢ ""
        → IsShown o timestamp (parse_hex_value signature)
    by_stripe :
        {signature timestamp v1 : String}
        → o.scheme ≡ SignatureScheme.stripe
        → o.signature ≡ some signature
        → header_pairs crypto signature "t" ≡ some timestamp
        → header_pairs crypto signature "v1" ≡ some v1
        → IsShown o timestamp v1

  -- The delivery under a scheme with a timestamp.
  abbrev pub IsTimely : VerifyOptions Double → Type 0
  IsTimely o =
      (timestamp : String) × (received : String) × IsShown o timestamp received
      × IsFresh o timestamp
      × IsSigned o received (signed_text timestamp o.raw_body)

  check_hmac-IsSigned :
      (o : VerifyOptions Double) (received text : String)
      → check_hmac crypto o received text ≡ verified
      → IsSigned o received text
  unfolding check_hmac safe_equal_hex
  check_hmac-IsSigned o received text e = record {
    filled = λ p. ground arith;
    same_size = ground arith;
    same_bytes = ground arith;
  }

  pub check_timed-parts :
      (o : VerifyOptions Double) (timestamp received : String)
      → check_timed crypto o timestamp received ≡ verified
      → IsFresh o timestamp
        × (check_hmac crypto o received (signed_text timestamp o.raw_body) ≡ verified)
  unfolding check_timed is_within_window
  check_timed-parts o timestamp received e = (
    record {
      finite_time = ground arith;
      positive = ground arith;
      finite_age = ground arith;
      past = ground arith;
      recent = ground arith;
    },
    ground arith,
  )

  pub check_timed-verified :
      (o : VerifyOptions Double) (timestamp received : String)
      → IsFresh o timestamp
      → IsSigned o received (signed_text timestamp o.raw_body)
      → check_timed crypto o timestamp received ≡ verified
  unfolding check_timed is_within_window check_hmac safe_equal_hex
  check_timed-verified o timestamp received fresh signed = ground (
    arith, fresh.finite_time, fresh.positive, fresh.finite_age, fresh.past, fresh.recent,
    signed.filled, signed.same_size, signed.same_bytes,
  )

  timely :
      (o : VerifyOptions Double) (timestamp received : String)
      → IsShown o timestamp received
      → check_timed crypto o timestamp received ≡ verified
      → IsTimely o
  timely o timestamp received shown e =
      let (fresh, signed) = check_timed-parts o timestamp received e in
      (
        timestamp,
        received,
        shown,
        fresh,
        check_hmac-IsSigned o received (signed_text timestamp o.raw_body) signed,
      )

  -- A delivery under the scheme "relay" or "stripe" is accepted only where it shows a timestamp,
  -- positive, not in the future and at most `maxAgeSeconds` old, and a signature, not empty, that
  -- is the HMAC of that timestamp and the body under the endpoint's secret.
  pub verify_webhook_signature-IsTimely :
      (o : VerifyOptions Double)
      → o.scheme ≢ SignatureScheme.github
      → verify_webhook_signature crypto o ≡ verified
      → IsTimely o
  unfolding verify_webhook_signature check_signature check_scheme check_pairs check_relay
  verify_webhook_signature-IsTimely o timed e = signature o.signature refl e
    where
      relayed :
          (sig : String) (t : Option String)
          → o.scheme ≡ SignatureScheme.relay
          → o.signature ≡ some sig
          → o.timestamp ≡ t
          → check_relay crypto o t sig ≡ verified
          → IsTimely o
      relayed sig none es e1 e2 h = cc
      relayed sig (some t) es e1 e2 h = elim (Bool-cases (str_eq t "")) [
        | inl empty ↦ let h' = rw empty at h in cc
        | inr filled ↦
            timely o t (parse_hex_value sig)
              (IsShown.by_relay es e1 e2 (λ p. ground (arith, eq_iff t ""))) (rw filled at h)
      ]

      paired :
          (sig : String) (t v1 : Option String)
          → o.scheme ≡ SignatureScheme.stripe
          → o.signature ≡ some sig
          → header_pairs crypto sig "t" ≡ t
          → header_pairs crypto sig "v1" ≡ v1
          → check_pairs crypto o t v1 ≡ verified
          → IsTimely o
      paired sig none v1 es e1 e2 e3 h = cc
      paired sig (some t) none es e1 e2 e3 h = cc
      paired sig (some t) (some v1) es e1 e2 e3 h = timely o t v1 (IsShown.by_stripe es e1 e2 e3) h

      scheme :
          (sc : SignatureScheme) (sig : String)
          → o.scheme ≡ sc
          → o.signature ≡ some sig
          → check_scheme crypto sc o sig ≡ verified
          → IsTimely o
      scheme SignatureScheme.github sig es e1 h = elim (timed es) [ ]
      scheme SignatureScheme.relay sig es e1 h = relayed sig o.timestamp es e1 refl h
      scheme SignatureScheme.stripe sig es e1 h = paired sig _ _ es e1 refl refl h

      signature :
          (sig : Option String)
          → o.signature ≡ sig
          → check_signature crypto o sig ≡ verified
          → IsTimely o
      signature none e1 h = cc
      signature (some sig) e1 h = elim (Bool-cases (str_eq sig "")) [
        | inl empty ↦ let h' = rw empty at h in cc
        | inr filled ↦ scheme o.scheme sig refl e1 (rw filled at h)
      ]
