-- ===== src/Totp/Tests.antt =====
-- One-time passwords under a toy digest.
use b2b_app.Prelude.{ℕ, ◌/◌, ◌≡◌, ◌↔◌, refl, true, some, List, [], ◌∷◌, ◌++◌, arith}
use b2b_app.Totp.{
  Doubles, encode_base32, decode_base32, verify_totp_code, encode_from, emit_digits,
  generate_totp_code, code_of, decode_from, counter_buffer, truncated,
}
use b2b_app.Totp.Base32.{decode_base32-encode_base32}
use b2b_app.Totp.Windows.{verify_totp_code_iff, IsRecent}

abbrev digest : List ℕ → List ℕ → List ℕ
digest key message = key ++ message ++ (7 ∷ 80 ∷ 36 ∷ 145 ∷ 2 ∷ [])

abbrev bytes : List ℕ
bytes = 65 ∷ 227 ∷ 143 ∷ 82 ∷ 0 ∷ 255 ∷ []

written : encode_base32 bytes ≡ "IHRY6UQA74"
unfolding encode_base32 encode_from emit_digits
written = refl

decode_base32-encode_base32_example :
    decode_base32 digest (λ s. s) (encode_base32 bytes) ≡ some bytes
decode_base32-encode_base32_example =
    decode_base32-encode_base32 digest (λ s. s) (λ s h. refl) bytes refl

-- Whole numbers below 2^50.
abbrev whole : Doubles
whole = record {
  rounded = λ t. t;
  counter_of = λ t. t / 30000;
  exact_below = 1125899906842624;
  exact_small = omega arith;
  rounded_exact = λ t h. refl;
  counter_exact = λ t h. refl;
}

code_now : generate_totp_code digest (λ s. s) whole "IHRY6UQA74" 95000 6 ≡ some "032447"
unfolding generate_totp_code code_of decode_base32 decode_from counter_buffer truncated
code_now = refl

verify_totp_code_iff_example :
    (verify_totp_code digest (λ s. s) whole "IHRY6UQA74" "032447" 100000 1 ≡ some true)
    ↔ IsRecent digest (λ s. s) whole "IHRY6UQA74" "032447" 100000
verify_totp_code_iff_example =
    verify_totp_code_iff digest (λ s. s) whole "IHRY6UQA74" "032447" 100000 (omega arith)
      (omega arith)
