-- ===== src/Passwords/Verifying.antt =====
-- What `verifyPassword` says of a text that `hashPassword` has stored.
use b2b_app.Prelude.{
  ◌≡◌, refl, sym, ap, ◌∙◌, String, Bool, true, some, [], ◌∷◌, ◌==◌, ==_iff, ok, arith, Option-cases,
  inl, inr,
}
use b2b_app.Prelude.Texts.{split, split-join}
use b2b_app.Passwords.{
  Scrypt, scrypt_cost, block_size, parallelism, keylen, stored_text, stored_hash, hash_password,
  compare_hash, verify_costs, verify_parts, verify_password,
}

module _ (node : Scrypt) where
  open node use {
    Bytes, Cost, size, equal, scrypt, of_nat, as_integer, to_text, to_base64, from_base64,
    as_integer-to_text, from_base64-to_base64, plain_number, plain_base64, equal_iff, size-scrypt,
  }

  split-stored_text :
      (salt hash : Bytes)
      → split b'$' (stored_text node salt hash)
        ≡ "scrypt"
          ∷ to_text (scrypt_cost node)
          ∷ to_text (block_size node)
          ∷ to_text (parallelism node)
          ∷ to_base64 salt
          ∷ to_base64 hash
          ∷ []
  unfolding stored_text
  split-stored_text salt hash =
      split-join "$" "scrypt"
        (to_text (scrypt_cost node)
          ∷ to_text (block_size node)
          ∷ to_text (parallelism node)
          ∷ to_base64 salt
          ∷ to_base64 hash
          ∷ [])
        (rw
          (
            plain_number (scrypt_cost node),
            plain_number (block_size node),
            plain_number (parallelism node),
            plain_base64 salt,
            plain_base64 hash,
          )
          refl)

  verify-stored :
      (password : String) (salt hash : Bytes)
      → verify_password node password (stored_text node salt hash)
        ≡ compare_hash node hash (
            scrypt password salt
              (size hash)
              (scrypt_cost node)
              (block_size node)
              (parallelism node))
  unfolding verify_password verify_parts verify_costs
  verify-stored password salt hash =
      ap (verify_parts node password) (split-stored_text salt hash)
      ∙ (rw
          (
            as_integer-to_text 16384,
            as_integer-to_text 8,
            as_integer-to_text 1,
            from_base64-to_base64 salt,
            from_base64-to_base64 hash,
          )
          refl)

  -- The text that `hashPassword` stores for a password is accepted by `verifyPassword` for exactly
  -- the passwords that scrypt takes to the same bytes with the same salt; for any other that scrypt
  -- hashes at all the answer is false, and no error is thrown.
  pub verify_password-hash_password :
      (password other stored : String) (salt h : Bytes)
      → hash_password node password salt ≡ ok stored
      → scrypt other salt keylen (scrypt_cost node) (block_size node) (parallelism node) ≡ some h
      → (b : Bool) × (verify_password node other stored ≡ ok b)
        × (b ≡ true
            → scrypt password salt keylen (scrypt_cost node) (block_size node) (parallelism node)
              ≡ some h)
        × (scrypt password salt keylen (scrypt_cost node) (block_size node) (parallelism node)
              ≡ some h
            → b ≡ true)
  unfolding hash_password stored_hash compare_hash
  verify_password-hash_password password other stored salt h e eh =
      elim (Option-cases
        (scrypt password salt keylen (scrypt_cost node) (block_size node) (parallelism node))) [
          | inl failed ↦ let e' = rw failed at e in cc
          | inr (g, made) ↦
              let same : stored_text node salt g ≡ stored = (let e' = rw made at e in cc) in
              let long : size g ≡ 64 = size-scrypt password salt 64 _ _ _ g made in
              let long' : size h ≡ 64 = size-scrypt other salt 64 _ _ _ h eh in
              let hit : (size h == size g) ≡ true = (==_iff (size h) (size g)).1 (omega arith) in
              let (sound, complete) = equal_iff h g (omega arith) in
              (
                equal h g,
                ap (verify_password node other) (sym same)
                    ∙ verify-stored other salt g
                    ∙ (rw (long, eh, hit) refl),
                λ t. made ∙ ap some (sym (sound t)),
                λ t. complete (let t' : some h ≡ some g = sym t ∙ made in cc),
              )
        ]
