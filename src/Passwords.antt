-- ===== src/Passwords.antt =====
-- lib/passwords.ts: the hashes of passwords, written and verified.
pub mod Verifying
pub mod Samples
mod Tests
use Prim.Native.Char.{code}
use b2b_app.Prelude.{
  ℕ, ◌≡◌, String, Bool, true, false, Option, none, some, List, [], ◌∷◌, if◌then◌else◌, str_eq, ◌==◌,
  Result, ok, err,
}
use b2b_app.Prelude.Texts.{split, join, has_char}

-- The errors that reach the caller: the class InvalidPasswordHashError, and what scrypt throws.
pub data PasswordError : Type 0 where
  invalid_hash : PasswordError
  scrypt_failed : PasswordError

-- What node:crypto and the numbers of JavaScript do: `Cost` are the integers among the numbers,
-- `as_integer` is Number() where it gives an integer, and `equal` is timingSafeEqual.
pub record Scrypt : Type 1 where
  pub Bytes : Type 0
  pub Cost : Type 0
  pub size : Bytes → ℕ
  pub equal : Bytes → Bytes → Bool
  pub scrypt : String → Bytes → ℕ → Cost → Cost → Cost → Option Bytes
  pub of_nat : ℕ → Cost
  pub as_integer : String → Option Cost
  pub to_text : Cost → String
  pub to_base64 : Bytes → String
  pub from_base64 : String → Bytes
  pub as_integer-to_text : (n : ℕ) → as_integer (to_text (of_nat n)) ≡ some (of_nat n)
  pub from_base64-to_base64 : (b : Bytes) → from_base64 (to_base64 b) ≡ b
  pub plain_number : (n : Cost) → has_char b'$' (to_text n) ≡ false
  pub plain_base64 : (b : Bytes) → has_char b'$' (to_base64 b) ≡ false
  pub equal_iff :
      (a b : Bytes) → size a ≡ size b → ((equal a b ≡ true) → a ≡ b) × (a ≡ b → equal a b ≡ true)
  pub size-scrypt :
      (p : String) (salt : Bytes) (n : ℕ) (N r q : Cost) (b : Bytes)
      → scrypt p salt n N r q ≡ some b
      → size b ≡ n

-- SCRYPT_KEYLEN
abbrev pub keylen : ℕ
keylen = 64

module _ (node : Scrypt) where
  open node use {
    Bytes, Cost, size, equal, scrypt, of_nat, as_integer, to_text, to_base64, from_base64,
  }

  -- SCRYPT_N, SCRYPT_R and SCRYPT_P
  abbrev pub scrypt_cost : Cost
  scrypt_cost = of_nat 16384

  abbrev pub block_size : Cost
  block_size = of_nat 8

  abbrev pub parallelism : Cost
  parallelism = of_nat 1

  -- The stored text of a salt and a hash.
  unfoldable pub stored_text : Bytes → Bytes → String
  stored_text salt hash = join "$" (
      "scrypt"
      ∷ to_text scrypt_cost
      ∷ to_text block_size
      ∷ to_text parallelism
      ∷ to_base64 salt
      ∷ to_base64 hash
      ∷ [])

  unfoldable pub stored_hash : Bytes → Option Bytes → Result PasswordError String
  stored_hash salt none = err scrypt_failed
  stored_hash salt (some hash) = ok (stored_text salt hash)

  -- hashPassword; the salt is drawn at random.
  unfoldable pub hash_password : String → Bytes → Result PasswordError String
  hash_password password salt =
      stored_hash salt (scrypt password salt keylen scrypt_cost block_size parallelism)

  unfoldable pub compare_hash : Bytes → Option Bytes → Result PasswordError Bool
  compare_hash expected none = err scrypt_failed
  compare_hash expected (some actual) =
      if size actual == size expected then ok (equal actual expected) else ok false

  unfoldable pub verify_costs :
      String → Option Cost → Option Cost → Option Cost → Bytes → Bytes → Result PasswordError Bool
  verify_costs password (some N) (some r) (some p) salt expected =
      compare_hash expected (scrypt password salt (size expected) N r p)
  verify_costs password _ _ _ salt expected = err invalid_hash

  unfoldable pub verify_parts : String → List String → Result PasswordError Bool
  verify_parts password (name ∷ N ∷ r ∷ p ∷ salt ∷ hash ∷ []) =
      if str_eq name "scrypt"
      then verify_costs password (as_integer N) (as_integer r) (as_integer p) (from_base64 salt)
          (from_base64 hash)
      else err invalid_hash
  verify_parts password _ = err invalid_hash

  -- verifyPassword
  unfoldable pub verify_password : String → String → Result PasswordError Bool
  verify_password password stored = verify_parts password (split b'$' stored)
