-- ===== src/Passwords/Samples.antt =====
-- A toy hash, with numbers written in unary.
use b2b_app.Prelude.{
  ℕ, zero, suc, ◌≡◌, refl, ap, String, Bool, true, false, Option, none, some, if◌then◌else◌, str_eq,
  ◌==◌, ==_iff, Bool-cases, inl, inr, arith,
}
use b2b_app.Prelude.Texts.{has_char}
use b2b_app.Passwords.{Scrypt}

abbrev pub ones : ℕ → String
ones zero = ""
ones (suc n) = String.◌∷◌ "1" (ones n)

abbrev pub measure : String → ℕ
measure String.[] = 0
measure (String.◌∷◌ c s) = suc (measure s)

pub measure-ones : (n : ℕ) → measure (ones n) ≡ n
measure-ones zero = refl
measure-ones (suc n) = ap suc (measure-ones n)

pub ones_plain : (n : ℕ) → has_char b'$' (ones n) ≡ false
ones_plain zero = refl
ones_plain (suc n) = ones_plain n

abbrev pub letter : Bool → String
letter true = "t"
letter false = "f"

pub letter_read : (b : Bool) → str_eq (letter b) "t" ≡ b
letter_read true = refl
letter_read false = refl

pub letter_plain : (b : Bool) → has_char b'$' (letter b) ≡ false
letter_plain true = refl
letter_plain false = refl

abbrev pub equal : Bool → Bool → Bool
equal true b = b
equal false true = false
equal false false = true

pub equal_right : (a b : Bool) → ((equal a b ≡ true) → a ≡ b) × (a ≡ b → equal a b ≡ true)
equal_right true true = (λ e. refl, λ e. refl)
equal_right true false = (λ e. cc, λ e. cc)
equal_right false true = (λ e. cc, λ e. cc)
equal_right false false = (λ e. refl, λ e. refl)

abbrev pub hash : String → ℕ → Option Bool
hash p n = if n == 64 then some (str_eq p "pw") else none

pub hash_long : (p : String) (n : ℕ) (b : Bool) → hash p n ≡ some b → 64 ≡ n
hash_long p n b e = elim (Bool-cases (n == 64)) [
  | inl hit ↦ let same = (==_iff n 64).0 hit in omega arith
  | inr miss ↦ let e' = rw miss at e in cc
]

abbrev pub toy : Scrypt
toy = record {
  Bytes = Bool;
  Cost = ℕ;
  size = λ b. 64;
  equal = equal;
  scrypt = λ p salt n N r q. hash p n;
  of_nat = λ n. n;
  as_integer = λ s. some (measure s);
  to_text = ones;
  to_base64 = letter;
  from_base64 = λ s. str_eq s "t";
  as_integer-to_text = λ n. ap some (measure-ones n);
  from_base64-to_base64 = letter_read;
  plain_number = ones_plain;
  plain_base64 = letter_plain;
  equal_iff = λ a b long. equal_right a b;
  size-scrypt = λ p salt n N r q b e. hash_long p n b e;
}
