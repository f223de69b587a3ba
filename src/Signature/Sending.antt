-- ===== src/Signature/Sending.antt =====
-- Deliveries signed as the three forms of a signature ask a sender to.
use Prim.Native.Char.{Char}
use text.Mathlib.TextLemmas.{nil-append, cons-append}
use b2b_app.Prelude.{
  ℕ, ◌+◌, ◌-◌, ◌≤◌, ◌<◌, ◌≡◌, ◌≢◌, ◌↔◌, ◌∙◌, refl, sym, ap, String, true, false, none, some, [],
  ◌∷◌, leb, ltb, str_eq, Bool-cases, inl, inr, arith, eq_iff,
}
use b2b_app.Prelude.Texts.{
  ◌+++◌, after_prefix, after_prefix-append, has_char, split, join, split-join,
}
use b2b_app.Signature.{
  SignatureScheme, verified, Crypto, VerifyOptions, parse_hex_value, header_pairs, pairs_from,
  set_pair, cut_from, check_timed, check_pairs, check_relay, check_scheme, check_signature,
  verify_webhook_signature,
}
use b2b_app.Signature.Authentic.{IsFresh, IsSigned, check_timed-parts, check_timed-verified}

-- What is documented of JavaScript's numbers and of node:crypto. The whole numbers up to `limit` are
-- exact as doubles; a digest in hex is not empty, and holds no comma, no "=" and no space.
pub record IsLawful (crypto : Crypto) : Type 0 where
  pub of_nat : ℕ → crypto.Double
  pub limit : ℕ
  pub zero_nat : crypto.zero_double ≡ of_nat 0
  pub finite_nat : (n : ℕ) → n ≤ limit → crypto.is_finite (of_nat n) ≡ true
  pub le_nat : (m n : ℕ) → m ≤ limit → n ≤ limit → crypto.le (of_nat m) (of_nat n) ≡ leb m n
  pub lt_nat : (m n : ℕ) → m ≤ limit → n ≤ limit → crypto.lt (of_nat m) (of_nat n) ≡ ltb m n
  pub sub_nat : (m n : ℕ) → n ≤ m → m ≤ limit → crypto.sub (of_nat m) (of_nat n) ≡ of_nat (m - n)
  pub sub_negative :
      (m n : ℕ)
      → m < n
      → n ≤ limit
      → crypto.lt (crypto.sub (of_nat m) (of_nat n)) crypto.zero_double ≡ true
  pub same_bytes : (b : crypto.Bytes) → crypto.timing_safe_equal b b ≡ true
  pub mac_bytes : (k s : String) → crypto.size (crypto.from_hex (crypto.hmac k s)) ≢ 0
  pub mac_filled : (k s : String) → crypto.hmac k s ≢ ""
  pub mac_bare : (k s : String) → after_prefix "sha256=" (crypto.hmac k s) ≡ none
  pub mac_plain : (k s : String) → has_char b',' (crypto.hmac k s) ≡ false
  pub mac_trim : (k s : String) → crypto.trim (crypto.hmac k s) ≡ crypto.hmac k s
  pub trim_t : crypto.trim "t" ≡ "t"
  pub trim_v1 : crypto.trim "v1" ≡ "v1"

behind_t : (s : String) → "t=" +++ s ≡ String.◌∷◌ "t" (String.◌∷◌ "=" s)
behind_t s =
    cons-append "t" "=" s
    ∙ ap (String.◌∷◌ "t") (cons-append "=" "" s ∙ ap (String.◌∷◌ "=") (nil-append s))

behind_v1 : (s : String) → "v1=" +++ s ≡ String.◌∷◌ "v" (String.◌∷◌ "1" (String.◌∷◌ "=" s))
behind_v1 s =
    cons-append "v" "1=" s
    ∙ ap (String.◌∷◌ "v") (
        cons-append "1" "=" s
        ∙ ap (String.◌∷◌ "1") (cons-append "=" "" s ∙ ap (String.◌∷◌ "=") (nil-append s)))

-- The header "t=...,v1=..." of the scheme "stripe".
abbrev pub stripe_header : String → String → String
stripe_header timestamp mac = join "," (("t=" +++ timestamp) ∷ ("v1=" +++ mac) ∷ [])

split-stripe_header :
    (timestamp mac : String)
    → has_char b',' timestamp ≡ false
    → has_char b',' mac ≡ false
    → split b',' (stripe_header timestamp mac) ≡ ("t=" +++ timestamp) ∷ ("v1=" +++ mac) ∷ []
split-stripe_header timestamp mac no_t no_m =
    split-join "," ("t=" +++ timestamp) (("v1=" +++ mac) ∷ [])
      (rw (behind_t timestamp, behind_v1 mac, no_t, no_m) refl)

module _ (crypto : Crypto) (lawful : IsLawful crypto) where
  open crypto use {Double, number, hmac, trim}
  open lawful use {of_nat, limit}

  pairs_of_header :
      (timestamp mac : String) (k : String)
      → has_char b',' timestamp ≡ false
      → has_char b',' mac ≡ false
      → header_pairs crypto (stripe_header timestamp mac) k
        ≡ set_pair crypto (some ("v1", mac)) (set_pair crypto (some ("t", timestamp)) (λ j. none)) k
  unfolding header_pairs pairs_from
  pairs_of_header timestamp mac k no_t no_m =
      ap (λ ps. pairs_from crypto ps (λ j. none) k) (split-stripe_header timestamp mac no_t no_m)
      ∙ ap
          (λ x.
            set_pair crypto (cut_from "" ("v1=" +++ mac))
              (set_pair crypto (cut_from "" x) (λ j. none)) k)
          (behind_t timestamp)
      ∙ ap
          (λ x.
            set_pair crypto (cut_from "" x) (set_pair crypto (some ("t", timestamp)) (λ j. none)) k)
          (behind_v1 mac)

  header_t :
      (timestamp mac : String)
      → has_char b',' timestamp ≡ false
      → has_char b',' mac ≡ false
      → trim timestamp ≡ timestamp
      → header_pairs crypto (stripe_header timestamp mac) "t" ≡ some timestamp
  header_t timestamp mac no_t no_m bare =
      pairs_of_header timestamp mac "t" no_t no_m ∙ rw (lawful.trim_v1, lawful.trim_t, bare) refl

  header_v1 :
      (timestamp mac : String)
      → has_char b',' timestamp ≡ false
      → has_char b',' mac ≡ false
      → trim mac ≡ mac
      → header_pairs crypto (stripe_header timestamp mac) "v1" ≡ some mac
  header_v1 timestamp mac no_t no_m bare =
      pairs_of_header timestamp mac "v1" no_t no_m ∙ rw (lawful.trim_v1, bare) refl

  -- What a sender with the secret puts into the delivery of a body at a time: the HMAC of the two
  -- in hex, as it is or behind "sha256=", beside the timestamp; or both in one header.
  pub data IsSent (o : VerifyOptions Double) : String → Type 0 where
    plain :
        {timestamp : String}
        → o.scheme ≡ SignatureScheme.relay
        → timestamp ≢ ""
        → o.timestamp ≡ some timestamp
        → o.signature ≡ some (hmac o.secret (timestamp +++ ("." +++ o.raw_body)))
        → IsSent o timestamp
    prefixed :
        {timestamp : String}
        → o.scheme ≡ SignatureScheme.relay
        → timestamp ≢ ""
        → o.timestamp ≡ some timestamp
        → o.signature ≡ some ("sha256=" +++ hmac o.secret (timestamp +++ ("." +++ o.raw_body)))
        → IsSent o timestamp
    in_header :
        {timestamp : String}
        → o.scheme ≡ SignatureScheme.stripe
        → has_char b',' timestamp ≡ false
        → trim timestamp ≡ timestamp
        → o.signature
          ≡ some (stripe_header timestamp (hmac o.secret (timestamp +++ ("." +++ o.raw_body))))
        → IsSent o timestamp

  filled_lem : (s : String) → s ≢ "" → str_eq s "" ≡ false
  filled_lem s filled = ground (arith, filled, eq_iff s "")

  filled_cons : (c : Char) (s : String) → str_eq (String.◌∷◌ c s) "" ≡ false
  filled_cons c s = filled_lem _ (λ p. cc)

  bare_lem : (s : String) → after_prefix "sha256=" s ≡ none → parse_hex_value s ≡ s
  unfolding parse_hex_value
  bare_lem s bare = rw (parse_hex_value, bare) refl

  prefixed_lem : (s : String) → parse_hex_value ("sha256=" +++ s) ≡ s
  unfolding parse_hex_value
  prefixed_lem s = rw (parse_hex_value, after_prefix-append "sha256=" s) refl

  filled_prefixed : (s : String) → str_eq ("sha256=" +++ s) "" ≡ false
  filled_prefixed s = ap (λ x. str_eq x "") (cons-append "s" "ha256=" s) ∙ filled_cons _ _

  filled_header : (timestamp mac : String) → str_eq (stripe_header timestamp mac) "" ≡ false
  filled_header timestamp mac =
      ap (λ x. str_eq (x +++ (String.◌∷◌ "," String.[] +++ ("v1=" +++ mac))) "")
        (behind_t timestamp)
      ∙ ap (λ x. str_eq x "")
          (cons-append "t" (String.◌∷◌ "=" timestamp)
            (String.◌∷◌ "," String.[] +++ ("v1=" +++ mac)))
      ∙ filled_cons _ _

  relayed :
      (o : VerifyOptions Double) (timestamp signature mac : String)
      → o.scheme ≡ SignatureScheme.relay
      → timestamp ≢ ""
      → o.timestamp ≡ some timestamp
      → o.signature ≡ some signature
      → str_eq signature "" ≡ false
      → parse_hex_value signature ≡ mac
      → verify_webhook_signature crypto o ≡ check_timed crypto o timestamp mac
  unfolding verify_webhook_signature check_signature check_scheme check_relay
  relayed o timestamp signature mac scheme filled shown signed some_signature parsed =
      rw (signed, some_signature, scheme, shown, filled_lem timestamp filled, parsed) refl

  headed :
      (o : VerifyOptions Double) (timestamp signature mac : String)
      → o.scheme ≡ SignatureScheme.stripe
      → o.signature ≡ some signature
      → str_eq signature "" ≡ false
      → header_pairs crypto signature "t" ≡ some timestamp
      → header_pairs crypto signature "v1" ≡ some mac
      → verify_webhook_signature crypto o ≡ check_timed crypto o timestamp mac
  unfolding verify_webhook_signature check_signature check_scheme check_pairs
  headed o timestamp signature mac scheme signed filled first second =
      rw (signed, filled, scheme, first, second) refl

  -- However it is sent, its time and its HMAC are checked.
  sent_timed :
      (o : VerifyOptions Double) (timestamp : String)
      → IsSent o timestamp
      → verify_webhook_signature crypto o
        ≡ check_timed crypto o timestamp (hmac o.secret (timestamp +++ ("." +++ o.raw_body)))
  sent_timed o timestamp (plain scheme filled shown signed) =
      let text = timestamp +++ ("." +++ o.raw_body) in
      relayed o timestamp _ _ scheme filled shown signed
        (filled_lem _ (lawful.mac_filled o.secret text))
        (bare_lem _ (lawful.mac_bare o.secret text))
  sent_timed o timestamp (prefixed scheme filled shown signed) =
      relayed o timestamp _ _ scheme filled shown signed (filled_prefixed _) (prefixed_lem _)
  sent_timed o timestamp (in_header scheme no_t bare signed) =
      let text = timestamp +++ ("." +++ o.raw_body) in
      let plain_mac = lawful.mac_plain o.secret text in
      headed o timestamp _ _ scheme signed (filled_header timestamp _)
        (header_t timestamp _ no_t plain_mac bare)
        (header_v1 timestamp _ no_t plain_mac (lawful.mac_trim o.secret text))

  timed :
      (o : VerifyOptions Double) (timestamp : String) (t now age : ℕ)
      → number timestamp ≡ of_nat t
      → o.now_seconds ≡ of_nat now
      → o.max_age_seconds ≡ of_nat age
      → t ≤ limit
      → now ≤ limit
      → age ≤ limit
      → (0 < t) × (t ≤ now) × (now ≤ t + age)
      → IsFresh crypto o timestamp
  timed o timestamp t now age read clock window small_t small_now small_age
        (positive, past, recent) =
      let elapsed : crypto.sub o.now_seconds (number timestamp) ≡ of_nat (now - t) =
        rw (read, clock) (lawful.sub_nat now t past small_now) in
      record {
        finite_time = rw read (lawful.finite_nat t small_t);
        positive =
            rw (read, lawful.zero_nat) (lawful.le_nat t 0 small_t (omega arith) ∙ ground arith);
        finite_age = rw elapsed (lawful.finite_nat (now - t) (omega arith));
        past =
            rw (elapsed, lawful.zero_nat)
              (lawful.lt_nat (now - t) 0 (omega arith) (omega arith) ∙ ground arith);
        recent =
            rw (elapsed, window)
              (lawful.le_nat (now - t) age (omega arith) small_age ∙ ground arith);
      }

  fresh_bounds :
      (o : VerifyOptions Double) (timestamp : String) (t now age : ℕ)
      → number timestamp ≡ of_nat t
      → o.now_seconds ≡ of_nat now
      → o.max_age_seconds ≡ of_nat age
      → t ≤ limit
      → now ≤ limit
      → age ≤ limit
      → IsFresh crypto o timestamp
      → (0 < t) × (t ≤ now) × (now ≤ t + age)
  fresh_bounds o timestamp t now age read clock window small_t small_now small_age fresh =
      let e1 = lawful.le_nat t 0 small_t (omega arith) in
      let e2 = rw (read, lawful.zero_nat) at fresh.positive in
      let e3 = rw (clock, read) at fresh.past in
      elim (Bool-cases (ltb now t)) [
        | inl ahead ↦ let negative = lawful.sub_negative now t (ground (arith, ahead)) small_t in cc
        | inr behind ↦
            let past : t ≤ now = ground (arith, behind) in
            let e4 =
              rw (clock, read, lawful.sub_nat now t past small_now, window) at fresh.recent in
            let e5 = lawful.le_nat (now - t) age (omega arith) small_age in
            (ground (arith, e1, e2), past, ground (arith, e4, e5))
      ]

  -- Under the documented laws of doubles, hex, `trim` and the HMAC (`IsLawful`): a delivery that a
  -- sender with the endpoint's secret signed for a timestamp is accepted exactly where 0 < t, t ≤ now
  -- and now ≤ t + age, if that timestamp, the current time and the window read as the natural
  -- numbers t, now and age, up to `limit`. Under "relay" the HMAC in hex is sent with or without
  -- "sha256=", beside a timestamp that is not empty; under "stripe" both are sent in the header, with
  -- a timestamp that has no comma and that `trim` leaves as it is.
  pub verify_webhook_signature_iff :
      (o : VerifyOptions Double) (timestamp : String) (t now age : ℕ)
      → IsSent o timestamp
      → number timestamp ≡ of_nat t
      → o.now_seconds ≡ of_nat now
      → o.max_age_seconds ≡ of_nat age
      → t ≤ limit
      → now ≤ limit
      → age ≤ limit
      → (verify_webhook_signature crypto o ≡ verified) ↔ ((0 < t) × (t ≤ now) × (now ≤ t + age))
  verify_webhook_signature_iff o timestamp t now age sent read clock window small_t small_now
        small_age =
      let text = timestamp +++ ("." +++ o.raw_body) in
      let checked = sent_timed o timestamp sent in
      let signed : IsSigned crypto o (hmac o.secret text) text = record {
        filled = lawful.mac_bytes o.secret text;
        same_size = refl;
        same_bytes = lawful.same_bytes _;
      } in
      (
        λ e.
            fresh_bounds o timestamp t now age read clock window small_t small_now small_age
              (check_timed-parts crypto o timestamp _ (sym checked ∙ e)).0,
        λ bounds.
            checked
            ∙ check_timed-verified crypto o timestamp (hmac o.secret text)
                (timed o timestamp t now age read clock window small_t small_now small_age bounds)
                signed,
      )
