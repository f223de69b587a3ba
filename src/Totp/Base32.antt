-- ===== src/Totp/Base32.antt =====
-- Bytes written in base32 and read back.
use Prim.Native.Char.{code}
use b2b_app.Prelude.{
  ℕ, zero, suc, ◌+◌, ◌-◌, ◌*◌, ◌/◌, ◌%◌, ◌^◌, ◌<◌, ◌≡◌, refl, ap, ◌∙◌, String, Bool, true, false,
  ◌&&◌, Option, none, some, List, [], ◌∷◌, if◌then◌else◌, ◌==◌, leb, ltb, arith, Bool-cases, inl,
  inr, all, ==_iff, below,
}
use b2b_app.Totp.{
  word, base32_letter, digit_of, emit_digits, encode_from, encode_base32, push_byte, decode_from,
  clean_base32, is_base32, decode_base32,
}

abbrev reads : Option ℕ → ℕ → Bool
reads none d = false
reads (some e) d = e == d

reads-inv : (o : Option ℕ) (d : ℕ) → reads o d ≡ true → o ≡ some d
reads-inv none d h = cc
reads-inv (some e) d h = ap some ((==_iff e d).0 h)

digit_of-base32_letter : (d : ℕ) → d < 32 → digit_of (base32_letter d) ≡ some d
digit_of-base32_letter d lt =
    reads-inv (digit_of (base32_letter d)) d
      (below 32 (λ k. reads (digit_of (base32_letter k)) k) d refl lt)

letter_base32 : (d : ℕ) → d < 32 → is_base32 (code (base32_letter d)) ≡ true
letter_base32 d lt = below 32 (λ k. is_base32 (code (base32_letter k))) d refl lt

decode-base32_letter :
    (v bits d : ℕ) (s : String)
    → d < 32
    → decode_from v bits (String.◌∷◌ (base32_letter d) s) ≡ (
        let w = v * 32 % word + d in
        let is_full = leb 8 (bits + 5) in
        let rest = decode_from w (if is_full then bits + 5 - 8 else bits + 5) s in
        if is_full then push_byte (w / 2 ^ (bits + 5 - 8) % 256) rest else rest)
unfolding decode_from
decode-base32_letter v bits d s lt = rw (digit_of-base32_letter d lt) refl

-- A byte of which r bits are still to be written, and which the reader has but for those.
abbrev Pending : ℕ → ℕ → ℕ → ℕ → Type 0
Pending r b ev dv = (b < 256) × (ev % 2 ^ r ≡ b % 2 ^ r) × (dv % 2 ^ (8 - r) ≡ b / 2 ^ r)

abbrev pub are_bytes : List ℕ → Bool
are_bytes bytes = all (λ b. ltb b 256) bytes

quintet : (n : ℕ) → n % 32 < 32
quintet n = omega arith

-- What the reader makes of what is left to write, for each number of bits that are still to be
-- written.
record IsSettled (bs : List ℕ) : Type 0 where
  at_0 : (ev dv : ℕ) → decode_from dv 0 (encode_from ev 0 bs) ≡ some bs
  at_1 : (ev dv b : ℕ) → Pending 1 b ev dv → decode_from dv 7 (encode_from ev 1 bs) ≡ some (b ∷ bs)
  at_2 : (ev dv b : ℕ) → Pending 2 b ev dv → decode_from dv 6 (encode_from ev 2 bs) ≡ some (b ∷ bs)
  at_3 : (ev dv b : ℕ) → Pending 3 b ev dv → decode_from dv 5 (encode_from ev 3 bs) ≡ some (b ∷ bs)
  at_4 : (ev dv b : ℕ) → Pending 4 b ev dv → decode_from dv 4 (encode_from ev 4 bs) ≡ some (b ∷ bs)

-- The last digit, with the bits that are left.
last_1 : (ev dv b : ℕ) → Pending 1 b ev dv → decode_from dv 7 (encode_from ev 1 []) ≡ some (b ∷ [])
unfolding encode_from decode_from
last_1 ev dv b h =
    let byte : (dv * 32 % word + ev * 16 % word % 32) / 16 % 256 ≡ b =
      omega (arith, h.0, h.1, h.2) in
    decode-base32_letter dv 7 (ev * 16 % word % 32) "" (quintet (ev * 16 % word))
    ∙ ap (λ x. push_byte x (some [])) byte

last_2 : (ev dv b : ℕ) → Pending 2 b ev dv → decode_from dv 6 (encode_from ev 2 []) ≡ some (b ∷ [])
unfolding encode_from decode_from
last_2 ev dv b h =
    let byte : (dv * 32 % word + ev * 8 % word % 32) / 8 % 256 ≡ b = omega (arith, h.0, h.1, h.2) in
    decode-base32_letter dv 6 (ev * 8 % word % 32) "" (quintet (ev * 8 % word))
    ∙ ap (λ x. push_byte x (some [])) byte

last_3 : (ev dv b : ℕ) → Pending 3 b ev dv → decode_from dv 5 (encode_from ev 3 []) ≡ some (b ∷ [])
unfolding encode_from decode_from
last_3 ev dv b h =
    let byte : (dv * 32 % word + ev * 4 % word % 32) / 4 % 256 ≡ b = omega (arith, h.0, h.1, h.2) in
    decode-base32_letter dv 5 (ev * 4 % word % 32) "" (quintet (ev * 4 % word))
    ∙ ap (λ x. push_byte x (some [])) byte

last_4 : (ev dv b : ℕ) → Pending 4 b ev dv → decode_from dv 4 (encode_from ev 4 []) ≡ some (b ∷ [])
unfolding encode_from decode_from
last_4 ev dv b h =
    let byte : (dv * 32 % word + ev * 2 % word % 32) / 2 % 256 ≡ b = omega (arith, h.0, h.1, h.2) in
    decode-base32_letter dv 4 (ev * 2 % word % 32) "" (quintet (ev * 2 % word))
    ∙ ap (λ x. push_byte x (some [])) byte

IsSettled-nil : IsSettled []
unfolding encode_from decode_from
IsSettled-nil = record {
  at_0 = λ ev dv. refl;
  at_1 = last_1;
  at_2 = last_2;
  at_3 = last_3;
  at_4 = last_4;
}

module _ (c : ℕ) (bs : List ℕ) (lt : c < 256) (rest : IsSettled bs) where
  abbrev moved : ℕ → ℕ
  moved ev = ev * 256 % word + c

  next_0 : (ev dv : ℕ) → decode_from dv 0 (encode_from ev 0 (c ∷ bs)) ≡ some (c ∷ bs)
  unfolding encode_from emit_digits
  next_0 ev dv =
      let v = moved ev in
      let w = dv * 32 % word + v / 8 % 32 in
      let tail = encode_from v 3 bs in
      decode-base32_letter dv 0 (v / 8 % 32) tail (quintet (v / 8))
      ∙ rest.at_3 v w c (lt, omega arith, omega arith)

  next_1 :
      (ev dv b : ℕ)
      → Pending 1 b ev dv
      → decode_from dv 7 (encode_from ev 1 (c ∷ bs)) ≡ some (b ∷ c ∷ bs)
  unfolding encode_from emit_digits
  next_1 ev dv b h =
      let v = moved ev in
      let w = dv * 32 % word + v / 16 % 32 in
      let byte : w / 16 % 256 ≡ b = omega (arith, h.0, h.1, h.2) in
      let tail = encode_from v 4 bs in
      decode-base32_letter dv 7 (v / 16 % 32) tail (quintet (v / 16))
      ∙ ap (λ x. push_byte x (decode_from w 4 tail)) byte
      ∙ ap (push_byte b)
          (rest.at_4 v w c (lt, omega (arith, h.0, h.1, h.2), omega (arith, h.0, h.1, h.2)))

  next_2 :
      (ev dv b : ℕ)
      → Pending 2 b ev dv
      → decode_from dv 6 (encode_from ev 2 (c ∷ bs)) ≡ some (b ∷ c ∷ bs)
  unfolding encode_from emit_digits
  next_2 ev dv b h =
      let v = moved ev in
      let w = dv * 32 % word + v / 32 % 32 in
      let byte : w / 8 % 256 ≡ b = omega (arith, h.0, h.1, h.2) in
      let tail = encode_from v 0 bs in
      let u = w * 32 % word + v / 1 % 32 in
      let tail' = String.◌∷◌ (base32_letter (v / 1 % 32)) tail in
      let whole : u / 1 % 256 ≡ c = omega (arith, h.0, h.1, h.2) in
      decode-base32_letter dv 6 (v / 32 % 32) tail' (quintet (v / 32))
      ∙ ap (λ x. push_byte x (decode_from w 3 tail')) byte
      ∙ ap (push_byte b) (
          decode-base32_letter w 3 (v / 1 % 32) tail (quintet (v / 1))
          ∙ ap (λ x. push_byte x (decode_from u 0 tail)) whole
          ∙ ap (push_byte c) (rest.at_0 v u))

  next_3 :
      (ev dv b : ℕ)
      → Pending 3 b ev dv
      → decode_from dv 5 (encode_from ev 3 (c ∷ bs)) ≡ some (b ∷ c ∷ bs)
  unfolding encode_from emit_digits
  next_3 ev dv b h =
      let v = moved ev in
      let w = dv * 32 % word + v / 64 % 32 in
      let byte : w / 4 % 256 ≡ b = omega (arith, h.0, h.1, h.2) in
      let tail = encode_from v 1 bs in
      let u = w * 32 % word + v / 2 % 32 in
      let tail' = String.◌∷◌ (base32_letter (v / 2 % 32)) tail in
      decode-base32_letter dv 5 (v / 64 % 32) tail' (quintet (v / 64))
      ∙ ap (λ x. push_byte x (decode_from w 2 tail')) byte
      ∙ ap (push_byte b) (
          decode-base32_letter w 2 (v / 2 % 32) tail (quintet (v / 2))
          ∙ rest.at_1 v u c (lt, omega (arith, h.0, h.1, h.2), omega (arith, h.0, h.1, h.2)))

  next_4 :
      (ev dv b : ℕ)
      → Pending 4 b ev dv
      → decode_from dv 4 (encode_from ev 4 (c ∷ bs)) ≡ some (b ∷ c ∷ bs)
  unfolding encode_from emit_digits
  next_4 ev dv b h =
      let v = moved ev in
      let w = dv * 32 % word + v / 128 % 32 in
      let byte : w / 2 % 256 ≡ b = omega (arith, h.0, h.1, h.2) in
      let tail = encode_from v 2 bs in
      let u = w * 32 % word + v / 4 % 32 in
      let tail' = String.◌∷◌ (base32_letter (v / 4 % 32)) tail in
      decode-base32_letter dv 4 (v / 128 % 32) tail' (quintet (v / 128))
      ∙ ap (λ x. push_byte x (decode_from w 1 tail')) byte
      ∙ ap (push_byte b) (
          decode-base32_letter w 1 (v / 4 % 32) tail (quintet (v / 4))
          ∙ rest.at_2 v u c (lt, omega (arith, h.0, h.1, h.2), omega (arith, h.0, h.1, h.2)))

IsSettled-bytes : (bs : List ℕ) → are_bytes bs ≡ true → IsSettled bs
IsSettled-bytes [] h = IsSettled-nil
IsSettled-bytes (c ∷ bs) h =
    let rest = IsSettled-bytes bs (ground arith) in
    let lt : c < 256 = ground arith in
    record {
      at_0 = next_0 c bs lt rest;
      at_1 = next_1 c bs lt rest;
      at_2 = next_2 c bs lt rest;
      at_3 = next_3 c bs lt rest;
      at_4 = next_4 c bs lt rest;
    }

-- Every character is a digit of base32.
abbrev pub is_plain : String → Bool
is_plain String.[] = true
is_plain (String.◌∷◌ c s) = is_base32 (code c) && is_plain s

clean_base32-is_plain : (s : String) → is_plain s ≡ true → clean_base32 s ≡ s
clean_base32-is_plain String.[] h = refl
clean_base32-is_plain (String.◌∷◌ c s) h =
    let first : is_base32 (code c) ≡ true = ground arith in
    rw first (ap (String.◌∷◌ c) (clean_base32-is_plain s (ground arith)))

plain_digit :
    (n : ℕ) (s : String)
    → is_plain s ≡ true
    → is_plain (String.◌∷◌ (base32_letter (n % 32)) s) ≡ true
plain_digit n s h = rw (letter_base32 (n % 32) (quintet n)) h

emit_digits_plain :
    (n value bits : ℕ) (k : ℕ → String)
    → ((r : ℕ) → is_plain (k r) ≡ true)
    → is_plain (emit_digits n value bits k) ≡ true
unfolding emit_digits
emit_digits_plain zero value bits k h = h bits
emit_digits_plain (suc n) value bits k h = elim (Bool-cases (leb 5 bits)) [
  | inl more ↦ rw more (
      plain_digit (value / 2 ^ (bits - 5)) (emit_digits n value (bits - 5) k)
        (emit_digits_plain n value (bits - 5) k h))
  | inr less ↦ rw less (h bits)
]

encode_plain : (value bits : ℕ) (bytes : List ℕ) → is_plain (encode_from value bits bytes) ≡ true
unfolding encode_from
encode_plain value bits [] = elim (Bool-cases (ltb 0 bits)) [
  | inl some_left ↦ rw some_left (plain_digit (value * 2 ^ (5 - bits) % word) "" refl)
  | inr none_left ↦ rw none_left refl
]
encode_plain value bits (c ∷ bytes) =
    emit_digits_plain ((bits + 8) / 5) (value * 256 % word + c) (bits + 8)
      (λ r. encode_from (value * 256 % word + c) r bytes)
      (λ r. encode_plain (value * 256 % word + c) r bytes)

-- Bytes that `encodeBase32` has written are read back by `decodeBase32`, however many there are,
-- where toUpperCase() leaves a text of upper case letters and digits as it is.
pub decode_base32-encode_base32 :
    (hmac : List ℕ → List ℕ → List ℕ) (upper : String → String)
    → ((s : String) → is_plain s ≡ true → upper s ≡ s)
    → (bytes : List ℕ) → are_bytes bytes ≡ true
    → decode_base32 hmac upper (encode_base32 bytes) ≡ some bytes
unfolding decode_base32 encode_base32
decode_base32-encode_base32 hmac upper kept bytes h =
    let plain = encode_plain 0 0 bytes in
    ap (λ s. decode_from 0 0 (clean_base32 s)) (kept (encode_from 0 0 bytes) plain)
    ∙ ap (decode_from 0 0) (clean_base32-is_plain (encode_from 0 0 bytes) plain)
    ∙ (IsSettled-bytes bytes h).at_0 0 0
