-- ===== src/Totp/Windows.antt =====
-- When a one-time password is accepted.
use b2b_app.Prelude.{
  ℕ, zero, suc, ◌+◌, ◌-◌, ◌*◌, ◌/◌, ◌%◌, ◌^◌, ◌<◌, ◌≤◌, ◌≡◌, refl, sym, ap, ◌∙◌, String, true,
  Option, none, some, List, ◌++◌, ◌==◌, leb, ltb, str_eq, eq_iff, eq_refl, arith, Bool-cases,
  Option-cases, inl, inr, below, ◌↔◌, le→leb,
}
use b2b_app.Totp.{
  Doubles, word, all_digits, is_digit, padded, counter_buffer, truncated, code_of, decode_base32,
  generate_totp_code, try_codes, verify_totp_code, be32, char_at,
}

digit_lem : (n : ℕ) → is_digit (char_at "0123456789" (n % 10)) ≡ true
digit_lem n = below 10 (λ k. is_digit (char_at "0123456789" k)) (n % 10) refl (omega arith)

all_digits-padded : (n v : ℕ) → all_digits n (padded n v) ≡ true
all_digits-padded zero v = refl
all_digits-padded (suc n) v = rw (digit_lem (v / 10 ^ n)) (all_digits-padded n v)

module _ (hmac : List ℕ → List ℕ → List ℕ) (upper : String → String) (doubles : Doubles) where
  open doubles use {rounded, exact_below, exact_small, rounded_exact, counter_exact}

  all_digits-code_of :
      (key message : Option (List ℕ)) {text : String}
      → code_of hmac upper 6 key message ≡ some text
      → all_digits 6 text ≡ true
  unfolding code_of
  all_digits-code_of none message e = cc
  all_digits-code_of (some key) none e = cc
  all_digits-code_of (some key) (some message) {text = text} e =
      let v = truncated (hmac key message) % 10 ^ 6 in
      let made : padded 6 v ≡ text = cc in ap (all_digits 6) (sym made) ∙ all_digits-padded 6 v

  abbrev expected_code : String → ℕ → Option String
  expected_code secret t =
      code_of hmac upper 6 (decode_base32 hmac upper secret) (counter_buffer (t / 30000))

  -- A secret that gives a code gives one at any other time in the range.
  other_time :
      (secret : String) (at_ms other_ms : ℕ) {text : String}
      → expected_code secret at_ms ≡ some text
      → other_ms < word * word
      → (e : String) × (expected_code secret other_ms ≡ some e)
  unfolding code_of counter_buffer
  other_time secret at_ms other_ms h lt = elim (Option-cases (decode_base32 hmac upper secret)) [
    | inl missing ↦ let h' = rw missing at h in cc
    | inr (key, read) ↦
        let fits : ltb (other_ms / 30000 / word) word ≡ true = ground arith in
        (
          padded 6 (
              truncated
                (hmac key (be32 (other_ms / 30000 / word) ++ be32 (other_ms / 30000 % word)))
              % 10 ^ 6),
          rw (read, fits) refl,
        )
  ]

  -- At a time that is exact, the code of its step; a sum is exact there too.
  generated :
      (secret : String) (t : ℕ)
      → t < exact_below
      → generate_totp_code hmac upper doubles secret t 6 ≡ expected_code secret t
  unfolding generate_totp_code
  generated secret t small =
      ap (λ c. code_of hmac upper 6 (decode_base32 hmac upper secret) (counter_buffer c))
        (counter_exact t small)

  generated_rounded :
      (secret : String) (t : ℕ)
      → t < exact_below
      → generate_totp_code hmac upper doubles secret (rounded t) 6 ≡ expected_code secret t
  generated_rounded secret t small =
      ap (λ r. generate_totp_code hmac upper doubles secret r 6) (rounded_exact t small)
      ∙ generated secret t small

  try_codes_hit :
      (secret text : String) (n k at_ms : ℕ)
      → k < n
      → expected_code secret (at_ms + k * 30000) ≡ some text
      → at_ms + n * 30000 ≤ exact_below
      → try_codes hmac upper doubles secret text n at_ms ≡ some true
  unfolding try_codes
  try_codes_hit secret text zero k at_ms lt h range = absurd (omega arith)
  try_codes_hit secret text (suc n) zero at_ms lt h range =
      let now : expected_code secret at_ms ≡ some text =
        ap (λ t. expected_code secret t) (omega arith) ∙ h in
      rw (generated_rounded secret at_ms (omega arith), now, eq_refl text) refl
  try_codes_hit secret text (suc n) (suc k) at_ms lt h range =
      let (e, made) =
        other_time secret (at_ms + suc k * 30000) at_ms h (omega (arith, exact_small)) in
      let later : expected_code secret (at_ms + 30000 + k * 30000) ≡ some text =
        ap (λ t. expected_code secret t) (omega arith) ∙ h in
      let rest = try_codes_hit secret text n k (at_ms + 30000) (omega arith) later (omega arith) in
      let current = generated_rounded secret at_ms (omega arith) in
      elim (Bool-cases (str_eq e text)) [
        | inl same ↦ rw (current, made, same) refl
        | inr other ↦ rw (current, made, other) rest
      ]

  try_codes-inv :
      (secret text : String) (n at_ms : ℕ)
      → at_ms + n * 30000 ≤ exact_below
      → try_codes hmac upper doubles secret text n at_ms ≡ some true
      → (k : ℕ) × (k < n) × (expected_code secret (at_ms + k * 30000) ≡ some text)
  unfolding try_codes
  try_codes-inv secret text zero at_ms range h = cc
  try_codes-inv secret text (suc n) at_ms range h =
      let current = generated_rounded secret at_ms (omega arith) in
      elim (Option-cases (expected_code secret at_ms)) [
        | inl failed ↦ let h' = rw (current, failed) at h in cc
        | inr (e, made) ↦ elim (Bool-cases (str_eq e text)) [
          | inl same ↦ (
            0,
            omega arith,
            ap (λ t. expected_code secret t) (omega arith)
                ∙ made
                ∙ ap some ((eq_iff e text).0 same),
          )
          | inr other ↦
              let (k, lt, later) =
                try_codes-inv secret text n (at_ms + 30000) (omega arith)
                  (rw (current, made, other) at h) in
              (suc k, omega arith, ap (λ t. expected_code secret t) (omega arith) ∙ later)
        ]
      ]

  -- The code is that of a time at most 30 seconds away.
  abbrev pub IsRecent : String → String → ℕ → Type 0
  IsRecent secret text at_ms =
      (t : ℕ) × (t ≤ at_ms + 30000)
      × (at_ms ≤ t + 30000)
      × (generate_totp_code hmac upper doubles secret t 6 ≡ some text)

  generated_digits :
      (secret text : String) (t : ℕ)
      → generate_totp_code hmac upper doubles secret t 6 ≡ some text
      → all_digits 6 text ≡ true
  unfolding generate_totp_code
  generated_digits secret text t h =
      all_digits-code_of (decode_base32 hmac upper secret) (counter_buffer (doubles.counter_of t)) h

  hit_of :
      (secret text : String) (at_ms t k : ℕ)
      → 30000 ≤ at_ms
      → at_ms + 60000 ≤ exact_below
      → expected_code secret t ≡ some text
      → k < 3
      → t / 30000 ≡ (at_ms - 30000 + k * 30000) / 30000
      → try_codes hmac upper doubles secret text 3 (at_ms - 30000) ≡ some true
  hit_of secret text at_ms t k early late h lt same =
      try_codes_hit secret text 3 k (at_ms - 30000) lt
        (ap (λ c. code_of hmac upper 6 (decode_base32 hmac upper secret) (counter_buffer c))
            (sym same)
          ∙ h)
        (omega arith)

  -- With its window of one step, at a time that lies at least 30 seconds after the start of 1970
  -- and at least 60000 milliseconds below the bound to which the doubles are exact,
  -- `verifyTotpCode` answers true exactly where the code is the one that `generateTotpCode` gives
  -- the secret at some time at most 30 seconds away.
  pub verify_totp_code_iff :
      (secret text : String) (at_ms : ℕ)
      → 30000 ≤ at_ms
      → at_ms + 60000 ≤ exact_below
      → (verify_totp_code hmac upper doubles secret text at_ms 1 ≡ some true)
        ↔ IsRecent secret text at_ms
  unfolding verify_totp_code
  verify_totp_code_iff secret text at_ms early late = (sound, complete)
    where
      in_time : leb (1 * 30000) at_ms ≡ true
      in_time = le→leb (1 * 30000) at_ms early

      sound :
          verify_totp_code hmac upper doubles secret text at_ms 1 ≡ some true
          → IsRecent secret text at_ms
      sound h = elim (Bool-cases (all_digits 6 text)) [
        | inl digits ↦
            let (k, lt, made) =
              try_codes-inv secret text 3 (at_ms - 30000) (omega arith)
                (rw (digits, in_time) at h) in
            (
              at_ms - 30000 + k * 30000,
              omega arith,
              omega arith,
              generated secret (at_ms - 30000 + k * 30000) (omega arith) ∙ made,
            )
        | inr letters ↦ let h' = rw letters at h in cc
      ]

      complete :
          IsRecent secret text at_ms
          → verify_totp_code hmac upper doubles secret text at_ms 1 ≡ some true
      complete (t, near, near', made) =
          let digits = generated_digits secret text t made in
          let step_code = sym (generated secret t (omega arith)) ∙ made in
          let hit = λ (k : ℕ). hit_of secret text at_ms t k early late step_code in
          rw (digits, in_time)
            (elim (Bool-cases (t / 30000 == (at_ms - 30000) / 30000)) [
              | inl first ↦ hit 0 (omega arith) (ground arith)
              | inr later ↦ elim (Bool-cases (t / 30000 == at_ms / 30000)) [
                | inl second ↦ hit 1 (omega arith) (ground arith)
                | inr third ↦ hit 2 (omega arith) (ground arith)
              ]
            ])
