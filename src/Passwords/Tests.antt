-- ===== src/Passwords/Tests.antt =====
-- Passwords under a toy hash.
use b2b_app.Prelude.{◌≡◌, refl, Bool, true, false, Option, some, ok}
use b2b_app.Passwords.{hash_password, stored_hash, stored_text, verify_password}
use b2b_app.Passwords.Verifying.{verify_password-hash_password}
use b2b_app.Passwords.Samples.{toy}

hashed : hash_password toy "pw" false ≡ ok (stored_text toy false true)
unfolding hash_password stored_hash
hashed = refl

verify_password-hash_password_example :
    (b : Bool) × (verify_password toy "other" (stored_text toy false true) ≡ ok b)
    × (b ≡ true → ◌≡◌ {A = Option Bool} (some true) (some false))
    × (◌≡◌ {A = Option Bool} (some true) (some false) → b ≡ true)
verify_password-hash_password_example =
    verify_password-hash_password toy "pw" "other" (stored_text toy false true) false false hashed
      refl
