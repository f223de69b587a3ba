-- ===== src/Accounts/Service.antt =====
-- The operations of lib/data/auth.ts on the tables of users, sessions and API keys. An update of a
-- user's row by its id is the update of the rows with that id.
use b2b_app.Prelude.{
  ℕ, ◌+◌, ◌*◌, String, Bool, true, false, ◌&&◌, Option, none, some, List, [], ◌∷◌, ◌++◌, map,
  if◌then◌else◌, str_eq, get_or, mem, Result, ok, err, ◌>>=◌,
}
use b2b_app.Database.{Table, is_none, map_option}
use b2b_app.Passwords.{PasswordError, hash_password, verify_password}
use b2b_app.Secrets.{SecretError, KeySource, encrypt_secret, decrypt_secret}
use b2b_app.Totp.{verify_totp_code}
use b2b_app.Sessions.{Session, revoke}
use b2b_app.Accounts.{
  User, ApiKey, LoginOutcome, signed_in, mfa_required, invalid_credentials, AccountError, no_user,
  Primitives, Db, PasswordResetClaims, ApiKeyInfo, principal_of, logged_in, without_code, enrolled,
  confirmed, disabled, with_password, reset_requested, reset_done, can_reset, of_password,
  of_secret, of_totp, filled_text,
}
use b2b_app.Accounts.Recovery.{
  hash_recovery_code, normalize_recovery_code, generate_recovery_codes, remove_first,
}

module _ (node : Primitives) (users : Table User) (sessions : Table Session)
    (keys : Table ApiKey) where
  open node use {
    scrypt, ciphers, environment, hmac, doubles, sha256, upper, trim, normalized, is_space,
  }

  abbrev pub S : Type 0
  S = Db users.State sessions.State keys.State

  abbrev pub Answer : Type 0 → Type 0
  Answer A = Result AccountError (A × S)

  abbrev pub verify : String → User → Result PasswordError Bool
  verify password u = verify_password scrypt password u.password_hash

  abbrev pub decrypt : User → String → Result SecretError String
  decrypt u envelope =
      decrypt_secret ciphers environment KeySource.absent u.organization_id envelope

  abbrev pub totp : String → String → ℕ → Option Bool
  totp secret code now = verify_totp_code hmac upper doubles secret code now 1

  abbrev pub recovery_hash : String → String
  recovery_hash code = hash_recovery_code sha256 (normalize_recovery_code trim upper is_space code)

  abbrev pub by_email : String → User → Bool
  by_email email u = str_eq u.email (normalized email)

  abbrev pub by_id : String → User → Bool
  by_id id u = str_eq u.id id

  abbrev pub update_user : String → (User → User) → S → S
  update_user id f db = record db { users = (users.update_many (by_id id) f db.users).1 }

  abbrev pub audited : User → String → S → S
  audited u action db = record db {
    audit =
        db.audit
        ++ (record {
          organization_id = u.organization_id;
          actor_id = u.id;
          action = action;
          resource_type = "user";
          resource_id = u.id;
        })
          ∷ [];
  }

  -- The end of a login.
  unfoldable pub conclude_login : User → ℕ → S → Answer LoginOutcome
  conclude_login u now db = ok (signed_in (principal_of u), update_user u.id (logged_in now) db)

  unfoldable pub login_recovery : User → String → ℕ → S → Answer LoginOutcome
  login_recovery u code now db =
      let hash = recovery_hash code in
      let hashes = get_or u.recovery_codes_hash [] in
      if mem hash hashes
      then conclude_login u now (update_user u.id (without_code (remove_first hash hashes)) db)
      else ok (invalid_credentials, db)

  unfoldable pub login_totp : User → String → Option Bool → ℕ → S → Answer LoginOutcome
  login_totp u code none now db = err AccountError.totp_error
  login_totp u code (some true) now db = conclude_login u now db
  login_totp u code (some false) now db = login_recovery u code now db

  unfoldable pub login_secret :
      User → String → Result SecretError String → ℕ → S → Answer LoginOutcome
  login_secret u code (err e) now db = ok (invalid_credentials, db)
  login_secret u code (ok secret) now db = login_totp u code (totp secret code now) now db

  unfoldable pub login_envelope : User → String → Option String → ℕ → S → Answer LoginOutcome
  login_envelope u code none now db = ok (invalid_credentials, db)
  login_envelope u code (some envelope) now db = login_secret u code (decrypt u envelope) now db

  unfoldable pub login_code : User → Option String → ℕ → S → Answer LoginOutcome
  login_code u none now db = ok (mfa_required (principal_of u), db)
  login_code u (some code) now db =
      login_envelope u code (filled_text u.mfa_secret_encrypted) now db

  -- The branch on `user.mfaEnabled`.
  unfoldable pub login_factor : User → Bool → Option String → ℕ → S → Answer LoginOutcome
  login_factor u true code now db = login_code u (filled_text code) now db
  login_factor u false code now db = conclude_login u now db

  unfoldable pub login_password :
      User → Result PasswordError Bool → Option String → ℕ → S → Answer LoginOutcome
  login_password u (err e) code now db = err (AccountError.password_error e)
  login_password u (ok false) code now db = ok (invalid_credentials, db)
  login_password u (ok true) code now db = login_factor u u.mfa_enabled code now db

  unfoldable pub login_found : Option User → String → Option String → ℕ → S → Answer LoginOutcome
  login_found none password code now db = ok (invalid_credentials, db)
  login_found (some u) password code now db = login_password u (verify password u) code now db

  -- authenticateUser
  unfoldable pub authenticate_user : String → String → Option String → ℕ → S → Answer LoginOutcome
  authenticate_user email password code now db =
      login_found (users.find_first (by_email email) db.users) password code now db

  -- findUniqueOrThrow
  abbrev pub found : Option User → Result AccountError User
  found none = err no_user
  found (some u) = ok u

  abbrev pub find_user : String → S → Result AccountError User
  find_user id db = found (users.find_first (by_id id) db.users)

  -- enrollMfa; the secret and the iv are drawn at random.
  unfoldable pub enroll_mfa : String → String → ciphers.Bytes → S → Answer String
  enroll_mfa id secret iv db = find_user id db >>= λ u.
      of_secret (encrypt_secret ciphers environment KeySource.absent u.organization_id iv secret)
      >>= λ envelope. ok (secret, update_user u.id (enrolled envelope) db)

  abbrev pub confirmation : User → List String → Bool → S → Answer (Option (List String))
  confirmation u codes false db = ok (none, db)
  confirmation u codes true db = ok (
    some codes,
    audited u "mfa.enabled"
        (update_user u.id (confirmed (map (hash_recovery_code sha256) codes)) db),
  )

  abbrev pub confirm_secret :
      User → Option String → String → List String → ℕ → S → Answer (Option (List String))
  confirm_secret u none code codes now db = ok (none, db)
  confirm_secret u (some envelope) code codes now db = of_secret (decrypt u envelope) >>= λ secret.
      of_totp (totp secret code now) >>= λ passed. confirmation u codes passed db

  -- confirmMfa, with the draws of the recovery codes.
  unfoldable pub confirm_mfa :
      String
      → String
      → List ((ℕ × ℕ × ℕ × ℕ) × (ℕ × ℕ × ℕ × ℕ))
      → ℕ
      → S
      → Answer (Option (List String))
  confirm_mfa id code draws now db = find_user id db >>= λ u.
      confirm_secret u (filled_text u.mfa_secret_encrypted) code (generate_recovery_codes draws) now
        db

  abbrev pub disabling : User → Bool → S → Answer Bool
  disabling u false db = ok (false, db)
  disabling u true db = ok (true, audited u "mfa.disabled" (update_user u.id disabled db))

  -- disableMfa
  unfoldable pub disable_mfa : String → String → S → Answer Bool
  disable_mfa id password db =
      find_user id db >>= λ u. of_password (verify password u) >>= λ passed. disabling u passed db

  abbrev pub changing : User → Bool → String → scrypt.Bytes → S → Answer Bool
  changing u false password salt db = ok (false, db)
  changing u true password salt db = of_password (hash_password scrypt password salt) >>= λ hash.
      ok (true, update_user u.id (with_password hash) db)

  -- changePassword
  unfoldable pub change_password : String → String → String → scrypt.Bytes → S → Answer Bool
  change_password id current password salt db = find_user id db >>= λ u.
      of_password (verify current u) >>= λ passed. changing u passed password salt db

  -- hashEmail
  abbrev pub hash_email : String → String
  hash_email value = sha256 (normalized value)

  unfoldable pub reset_of : Option User → String → ℕ → ℕ → S → Option String × S
  reset_of none token ttl_hours now db = (none, db)
  reset_of (some u) token ttl_hours now db =
      (some token, update_user u.id (reset_requested (sha256 token) (now + ttl_hours * 3600000)) db)

  -- requestPasswordReset; the token is drawn at random.
  unfoldable pub request_password_reset : String → String → ℕ → ℕ → S → Option String × S
  request_password_reset email token ttl_hours now db =
      reset_of (users.find_first (by_email email) db.users) token ttl_hours now db

  abbrev pub is_open_session : String → Session → Bool
  is_open_session id s = str_eq s.user_id id && is_none s.revoked_at

  -- The transaction's two updates.
  unfoldable pub reset_user : User → String → ℕ → S → S
  reset_user u hash now db = record (update_user u.id (reset_done hash) db) {
    sessions = (sessions.update_many (is_open_session u.id) (revoke now) db.sessions).1;
  }

  abbrev pub claims_of : User → PasswordResetClaims
  claims_of u = record { user_id = u.id; organization_id = u.organization_id }

  unfoldable pub consume_found :
      Option User → Result PasswordError String → ℕ → S → Answer (Option PasswordResetClaims)
  consume_found none hash now db = ok (none, db)
  consume_found (some u) (err e) now db = err (AccountError.password_error e)
  consume_found (some u) (ok hash) now db = ok (some (claims_of u), reset_user u hash now db)

  -- consumePasswordReset
  unfoldable pub consume_password_reset :
      String → String → scrypt.Bytes → ℕ → S → Answer (Option PasswordResetClaims)
  consume_password_reset token password salt now db =
      consume_found (users.find_first (can_reset (sha256 token) now) db.users)
        (hash_password scrypt password salt) now db

  -- hashApiKey
  abbrev pub hash_api_key : String → String
  hash_api_key plaintext = sha256 plaintext

  abbrev pub is_live_key : String → ApiKey → Bool
  is_live_key plaintext k = str_eq k.key_hash (hash_api_key plaintext) && is_none k.revoked_at

  abbrev pub key_info : ApiKey → ApiKeyInfo
  key_info k = record { user_id = k.user_id; organization_id = k.organization_id }

  -- resolveApiKey
  unfoldable pub resolve_api_key : String → S → Option ApiKeyInfo
  resolve_api_key plaintext db =
      map_option key_info (keys.find_first (is_live_key plaintext) db.keys)
