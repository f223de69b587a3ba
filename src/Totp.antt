-- ===== src/Totp.antt =====
-- lib/totp.ts: base32 and the time-based one-time passwords. Bit operations on 32-bit integers are
-- written as arithmetic: `x << n` as a product modulo 2^32, `x >>> n` as a quotient, `x & (2^n - 1)`
-- as a remainder, and `|` of disjoint bits as a sum.
pub mod Base32
pub mod Windows
mod Tests
use Prim.Native.Char.{Char, code}
use Prim.Native.String
use b2b_app.Prelude.{
  ℕ, zero, suc, ◌+◌, ◌-◌, ◌*◌, ◌/◌, ◌%◌, ◌^◌, ◌<◌, ◌≤◌, ◌≡◌, String, Bool, true, false, ◌&&◌, ◌||◌,
  Option, none, some, List, [], ◌∷◌, ◌++◌, if◌then◌else◌, str_eq, ◌==◌, leb, ltb,
}

abbrev pub word : ℕ
word = 4294967296

abbrev pub base32_alphabet : String
base32_alphabet = "ABCDEFGHIJKLMNOPQRSTUVWXYZ234567"

-- text[n]; the code never reads behind the end.
abbrev pub char_at : String → ℕ → Char
char_at String.[] n = "A"
char_at (String.◌∷◌ c s) zero = c
char_at (String.◌∷◌ c s) (suc n) = char_at s n

-- text.indexOf(c), from the index that the text's first character has.
abbrev pub index_from : ℕ → ℕ → String → Option ℕ
index_from i n String.[] = none
index_from i n (String.◌∷◌ c s) =
    let rest = index_from (suc i) n s in if n == code c then some i else rest

abbrev pub base32_letter : ℕ → Char
base32_letter d = char_at base32_alphabet d

abbrev pub digit_of : Char → Option ℕ
digit_of c = index_from 0 (code c) base32_alphabet

-- The inner loop of `encodeBase32`, with the number of fives in `bits` as its fuel; `rest` goes on
-- with the bits that are left.
unfoldable pub emit_digits : ℕ → ℕ → ℕ → (ℕ → String) → String
emit_digits zero value bits rest = rest bits
emit_digits (suc n) value bits rest =
    let next = emit_digits n value (bits - 5) rest in
    if leb 5 bits then String.◌∷◌ (base32_letter (value / 2 ^ (bits - 5) % 32)) next else rest bits

unfoldable pub encode_from : ℕ → ℕ → List ℕ → String
encode_from value bits [] =
    if ltb 0 bits then String.◌∷◌ (base32_letter (value * 2 ^ (5 - bits) % word % 32)) "" else ""
encode_from value bits (byte ∷ bytes) =
    let v = value * 256 % word + byte in
    emit_digits ((bits + 8) / 5) v (bits + 8) (λ r. encode_from v r bytes)

-- encodeBase32
unfoldable pub encode_base32 : List ℕ → String
encode_base32 input = encode_from 0 0 input

abbrev pub push_byte : ℕ → Option (List ℕ) → Option (List ℕ)
push_byte byte none = none
push_byte byte (some bytes) = some (byte ∷ bytes)

-- `none` is the exception of a character that is no digit.
abbrev pub with_digit : Option ℕ → (ℕ → Option (List ℕ)) → Option (List ℕ)
with_digit none f = none
with_digit (some d) f = f d

-- The loop of `decodeBase32`.
unfoldable pub decode_from : ℕ → ℕ → String → Option (List ℕ)
decode_from value bits String.[] = some []
decode_from value bits (String.◌∷◌ c s) = with_digit (digit_of c) (λ d.
    let v = value * 32 % word + d in
    let is_full = leb 8 (bits + 5) in
    let rest = decode_from v (if is_full then bits + 5 - 8 else bits + 5) s in
    if is_full then push_byte (v / 2 ^ (bits + 5 - 8) % 256) rest else rest)

-- The characters that /[^A-Z2-7]/ leaves.
abbrev pub is_base32 : ℕ → Bool
is_base32 n = (leb 65 n && leb n 90) || (leb 50 n && leb n 55)

abbrev pub clean_base32 : String → String
clean_base32 String.[] = ""
clean_base32 (String.◌∷◌ c s) =
    let rest = clean_base32 s in if is_base32 (code c) then String.◌∷◌ c rest else rest

-- A number in decimal, with zeros in front up to the length.
abbrev pub padded : ℕ → ℕ → String
padded zero v = ""
padded (suc n) v = String.◌∷◌ (char_at "0123456789" (v / 10 ^ n % 10)) (padded n v)

abbrev pub byte_at : List ℕ → ℕ → ℕ
byte_at [] n = 0
byte_at (x ∷ xs) zero = x
byte_at (x ∷ xs) (suc n) = byte_at xs n

abbrev pub last_byte : List ℕ → ℕ
last_byte [] = 0
last_byte (x ∷ []) = x
last_byte (x ∷ y ∷ xs) = last_byte (y ∷ xs)

-- writeUInt32BE
abbrev pub be32 : ℕ → List ℕ
be32 n = n / 16777216 % 256 ∷ n / 65536 % 256 ∷ n / 256 % 256 ∷ n % 256 ∷ []

-- The eight bytes of a counter; its upper half must fit.
unfoldable pub counter_buffer : ℕ → Option (List ℕ)
counter_buffer counter =
    if ltb (counter / word) word
    then some (be32 (counter / word) ++ be32 (counter % word))
    else none

-- The number that RFC 4226 cuts out of a digest.
unfoldable pub truncated : List ℕ → ℕ
truncated hmac =
    let offset = last_byte hmac % 16 in
    byte_at hmac offset % 128 * 16777216
    + byte_at hmac (offset + 1) % 256 * 65536
    + byte_at hmac (offset + 2) % 256 * 256
    + byte_at hmac (offset + 3) % 256

abbrev pub is_digit : Char → Bool
is_digit c = leb b'0' (code c) && leb (code c) b'9'

-- The text has that many characters, and all are digits.
abbrev pub all_digits : ℕ → String → Bool
all_digits zero String.[] = true
all_digits zero (String.◌∷◌ c s) = false
all_digits (suc n) String.[] = false
all_digits (suc n) (String.◌∷◌ c s) = is_digit c && all_digits n s

-- What the loop of `verifyTotpCode` makes of one expected code.
abbrev pub tried : String → Option String → Option Bool → Option Bool
tried text none rest = none
tried text (some expected) rest = if str_eq expected text then some true else rest

-- What the code uses of the arithmetic of doubles on times in milliseconds: the double next to a
-- whole number, which a sum is rounded to, and Math.floor(atMs / 1000 / 30). Both are exact below
-- some bound, which lies below 2^64 and for IEEE doubles near 2^50.
pub record Doubles : Type 0 where
  pub rounded : ℕ → ℕ
  pub counter_of : ℕ → ℕ
  pub exact_below : ℕ
  pub exact_small : exact_below ≤ word * word
  pub rounded_exact : (t : ℕ) → t < exact_below → rounded t ≡ t
  pub counter_exact : (t : ℕ) → t < exact_below → counter_of t ≡ t / 30000

-- `hmac` is HMAC-SHA1 of a key and a message, and `upper` is toUpperCase().
module _ (hmac : List ℕ → List ℕ → List ℕ) (upper : String → String) where
  -- decodeBase32
  unfoldable pub decode_base32 : String → Option (List ℕ)
  decode_base32 input = decode_from 0 0 (clean_base32 (upper input))

  unfoldable pub code_of : ℕ → Option (List ℕ) → Option (List ℕ) → Option String
  code_of digits none message = none
  code_of digits (some key) none = none
  code_of digits (some key) (some message) =
      some (padded digits (truncated (hmac key message) % 10 ^ digits))

module _ (hmac : List ℕ → List ℕ → List ℕ) (upper : String → String) (doubles : Doubles) where
  open doubles use {rounded, counter_of}

  -- generateTotpCode, at a time in milliseconds; `none` is an exception.
  unfoldable pub generate_totp_code : String → ℕ → ℕ → Option String
  generate_totp_code secret at_ms digits =
      code_of hmac upper digits (decode_base32 hmac upper secret)
        (counter_buffer (counter_of at_ms))

  -- The loop of `verifyTotpCode` with that many offsets left; `at_ms` is the sum of the time and the
  -- next offset, before it is rounded.
  unfoldable pub try_codes : String → String → ℕ → ℕ → Option Bool
  try_codes secret text zero at_ms = some false
  try_codes secret text (suc n) at_ms =
      tried text (generate_totp_code secret (rounded at_ms) 6)
        (try_codes secret text n (at_ms + 30000))

  -- verifyTotpCode; a time before 1970 makes `writeUInt32BE` throw.
  unfoldable pub verify_totp_code : String → String → ℕ → ℕ → Option Bool
  verify_totp_code secret text at_ms window =
      if all_digits 6 text
      then if leb (window * 30000) at_ms
        then try_codes secret text (2 * window + 1) (at_ms - window * 30000)
        else none
      else some false
