-- ===== src/Accounts/Login.antt =====
-- What a successful login has proved, and what it uses up.
use b2b_app.Prelude.{
  ℕ, ◌≡◌, ◌⊎◌, ◌∙◌, refl, sym, ap, String, Bool, true, false, Option, none, some, [], get_or, mem,
  find, Result, ok, err, Bool-cases, inl, inr,
}
use b2b_app.Database.{Table}
use b2b_app.Passwords.{PasswordError}
use b2b_app.Secrets.{SecretError}
use b2b_app.Sessions.{Session}
use b2b_app.Accounts.{
  User, ApiKey, AuthenticatedPrincipal, signed_in, Primitives, principal_of, logged_in,
  without_code, filled_text,
}
use b2b_app.Accounts.Recovery.{remove_first}
use b2b_app.Accounts.Service.{
  S, verify, decrypt, totp, recovery_hash, by_email, update_user, conclude_login, login_recovery,
  login_totp, login_secret, login_envelope, login_code, login_factor, login_password, login_found,
  authenticate_user,
}

module _ (node : Primitives) (users : Table User) (sessions : Table Session)
    (keys : Table ApiKey) where
  abbrev pub D : Type 0
  D = S node users sessions keys

  -- The second factor of a user who has one: a code that the secret accepts now, or one of the
  -- recovery codes.
  abbrev pub HasCode : User → String → ℕ → Type 0
  HasCode u code now =
      (envelope : String) × (secret : String) × (filled_text u.mfa_secret_encrypted ≡ some envelope)
      × (decrypt node users sessions keys u envelope ≡ ok secret)
      × ((totp node users sessions keys secret code now ≡ some true)
          ⊎ (mem (recovery_hash node users sessions keys code) (get_or u.recovery_codes_hash [])
              ≡ true))

  abbrev pub HasSecondFactor : User → Option String → ℕ → Type 0
  HasSecondFactor u given now =
      (u.mfa_enabled ≡ false)
      ⊎ ((code : String) × (filled_text given ≡ some code) × HasCode u code now)

  pub login_recovery-inv :
      (u : User) (code : String) (now : ℕ) (db db' : D) (p : AuthenticatedPrincipal)
      → login_recovery node users sessions keys u code now db ≡ ok (signed_in p, db')
      → (mem (recovery_hash node users sessions keys code) (get_or u.recovery_codes_hash []) ≡ true)
        × (p ≡ principal_of u)
        × (db'
            ≡ update_user node users sessions keys u.id (logged_in now) (
                update_user node users sessions keys u.id
                  (without_code (
                    remove_first
                      (recovery_hash node users sessions keys code)
                      (get_or u.recovery_codes_hash [])))
                  db))
  unfolding login_recovery conclude_login
  login_recovery-inv u code now db db' p e =
      elim (Bool-cases
        (mem (recovery_hash node users sessions keys code) (get_or u.recovery_codes_hash []))) [
          | inl listed ↦ let e' = rw listed at e in (listed, cc, cc)
          | inr unlisted ↦ let e' = rw unlisted at e in cc
        ]

  login_totp-inv :
      (u : User) (code : String) (o : Option Bool) (now : ℕ) (db db' : D)
      (p : AuthenticatedPrincipal)
      → login_totp node users sessions keys u code o now db ≡ ok (signed_in p, db')
      → ((o ≡ some true)
          ⊎ (mem (recovery_hash node users sessions keys code) (get_or u.recovery_codes_hash [])
              ≡ true))
        × (p ≡ principal_of u)
  unfolding login_totp conclude_login
  login_totp-inv u code none now db db' p e = cc
  login_totp-inv u code (some true) now db db' p e = (inl refl, cc)
  login_totp-inv u code (some false) now db db' p e =
      let (listed, same, after) = login_recovery-inv u code now db db' p e in (inr listed, same)

  login_envelope-inv :
      (u : User) (code : String) (o : Option String) (now : ℕ) (db db' : D)
      (p : AuthenticatedPrincipal)
      → filled_text u.mfa_secret_encrypted ≡ o
      → login_envelope node users sessions keys u code o now db ≡ ok (signed_in p, db')
      → HasCode u code now × (p ≡ principal_of u)
  unfolding login_envelope login_secret
  login_envelope-inv u code none now db db' p h e = cc
  login_envelope-inv u code (some envelope) now db db' p h e =
      opened (decrypt node users sessions keys u envelope) refl e
    where
      opened :
          (r : Result SecretError String)
          → decrypt node users sessions keys u envelope ≡ r
          → login_secret node users sessions keys u code r now db ≡ ok (signed_in p, db')
          → HasCode u code now × (p ≡ principal_of u)
      opened (err x) d e' = cc
      opened (ok secret) d e' =
          let (passed, same) =
            login_totp-inv u code (totp node users sessions keys secret code now) now db db' p e' in
          ((envelope, secret, h, d, passed), same)

  login_code-inv :
      (u : User) (given o : Option String) (now : ℕ) (db db' : D) (p : AuthenticatedPrincipal)
      → filled_text given ≡ o
      → login_code node users sessions keys u o now db ≡ ok (signed_in p, db')
      → HasSecondFactor u given now × (p ≡ principal_of u)
  unfolding login_code
  login_code-inv u given none now db db' p h e = cc
  login_code-inv u given (some code) now db db' p h e =
      let (has, same) =
        login_envelope-inv u code (filled_text u.mfa_secret_encrypted) now db db' p refl e in
      (inr (code, h, has), same)

  login_factor-inv :
      (u : User) (b : Bool) (given : Option String) (now : ℕ) (db db' : D)
      (p : AuthenticatedPrincipal)
      → u.mfa_enabled ≡ b
      → login_factor node users sessions keys u b given now db ≡ ok (signed_in p, db')
      → HasSecondFactor u given now × (p ≡ principal_of u)
  unfolding login_factor conclude_login
  login_factor-inv u true given now db db' p h e =
      login_code-inv u given (filled_text given) now db db' p refl e
  login_factor-inv u false given now db db' p h e = (inl h, cc)

  pub login_password-inv :
      (u : User) (r : Result PasswordError Bool) (given : Option String) (now : ℕ) (db db' : D)
      (p : AuthenticatedPrincipal)
      → login_password node users sessions keys u r given now db ≡ ok (signed_in p, db')
      → (r ≡ ok true) × HasSecondFactor u given now × (p ≡ principal_of u)
  unfolding login_password
  login_password-inv u (err x) given now db db' p e = cc
  login_password-inv u (ok false) given now db db' p e = cc
  login_password-inv u (ok true) given now db db' p e =
      let (has, same) = login_factor-inv u u.mfa_enabled given now db db' p refl e in
      (refl, has, same)

  -- Where `authenticateUser` signs a caller in, the table has a user with the given address, whose
  -- stored hash accepts the given password, and with MFA enabled the given code is either accepted
  -- by the user's decrypted secret at that time or one of the user's recovery codes. The principal
  -- is that user's.
  pub authenticate_user-signed_in :
      (email password : String) (given : Option String) (now : ℕ) (db db' : D)
      (p : AuthenticatedPrincipal)
      → authenticate_user node users sessions keys email password given now db
        ≡ ok (signed_in p, db')
      → (u : User) × (find (by_email node users sessions keys email) (users.rows db.users) ≡ some u)
        × (verify node users sessions keys password u ≡ ok true)
        × HasSecondFactor u given now
        × (p ≡ principal_of u)
  unfolding authenticate_user login_found
  authenticate_user-signed_in email password given now db db' p e =
      looked_up (find (by_email node users sessions keys email) (users.rows db.users)) refl (
        ap (λ o. login_found node users sessions keys o password given now db)
          (sym (users.find_first-rows (by_email node users sessions keys email) db.users))
        ∙ e)
    where
      looked_up :
          (o : Option User)
          → find (by_email node users sessions keys email) (users.rows db.users) ≡ o
          → login_found node users sessions keys o password given now db ≡ ok (signed_in p, db')
          → (u : User) × (find (by_email node users sessions keys email) (users.rows db.users)
              ≡ some u)
            × (verify node users sessions keys password u ≡ ok true)
            × HasSecondFactor u given now
            × (p ≡ principal_of u)
      looked_up none there h = cc
      looked_up (some u) there h =
          let (right, has, same) =
            login_password-inv u (verify node users sessions keys password u) given now db db' p
              h in
          (u, there, right, has, same)
