-- ===== src/Accounts.antt =====
-- lib/data/auth.ts: login, one-time passwords and recovery codes, passwords and their reset, API
-- keys. Every exception is thrown before the first change of the database.
pub mod Recovery
pub mod Service
pub mod Login
pub mod Once
pub mod Reset
mod Tests
use b2b_app.Prelude.{
  ℕ, ◌+◌, ◌*◌, String, Bool, true, false, ◌&&◌, ◌||◌, not, Option, none, some, List, [], ◌∷◌, ◌++◌,
  map, if◌then◌else◌, ltb, str_eq, get_or, mem, Result, ok, err,
}
use b2b_app.Database.{Table, is_none, map_option}
use b2b_app.Invitations.{AuditEvent}
use b2b_app.Passwords.{PasswordError, Scrypt, hash_password, verify_password}
use b2b_app.Secrets.{SecretError, Ciphers, KeySource, encrypt_secret, decrypt_secret}
use b2b_app.Totp.{Doubles}
use b2b_app.Sessions.{Session, revoke}
use b2b_app.Accounts.Recovery.{hash_recovery_code, normalize_recovery_code, remove_first}

-- Dates are milliseconds.
pub record User : Type 0 where
  pub id : String
  pub organization_id : String
  pub email : String
  pub name : Option String
  pub role : String
  pub password_hash : String
  pub mfa_enabled : Bool
  pub mfa_secret_encrypted : Option String
  pub recovery_codes_hash : Option (List String)
  pub password_reset_token_hash : Option String
  pub password_reset_expires_at : Option ℕ
  pub last_login_at : Option ℕ

pub record ApiKey : Type 0 where
  pub id : String
  pub organization_id : String
  pub user_id : String
  pub key_hash : String
  pub revoked_at : Option ℕ

pub data Role : Type 0 where
  admin member : Role

pub record AuthenticatedPrincipal : Type 0 where
  pub user_id : String
  pub organization_id : String
  pub role : Role
  pub email : String
  pub name : Option String

pub data LoginOutcome : Type 0 where
  signed_in : AuthenticatedPrincipal → LoginOutcome
  mfa_required : AuthenticatedPrincipal → LoginOutcome
  invalid_credentials : LoginOutcome

-- What is thrown: by `findUniqueOrThrow`, and by the modules that are called.
pub data AccountError : Type 0 where
  no_user : AccountError
  password_error : PasswordError → AccountError
  secret_error : SecretError → AccountError
  totp_error : AccountError

-- What the functions take from node:crypto, from JavaScript's texts and from the environment:
-- `normalized` is `trim().toLowerCase()`, and `is_space` the class \s.
pub record Primitives : Type 1 where
  pub scrypt : Scrypt
  pub ciphers : Ciphers
  pub environment : KeySource ciphers.Bytes
  pub hmac : List ℕ → List ℕ → List ℕ
  pub doubles : Doubles
  pub sha256 : String → String
  pub upper : String → String
  pub trim : String → String
  pub normalized : String → String
  pub is_space : ℕ → Bool

pub record Db (U S K : Type 0) : Type 0 where
  pub users : U
  pub sessions : S
  pub keys : K
  pub audit : List AuditEvent

pub record PasswordResetClaims : Type 0 where
  pub user_id : String
  pub organization_id : String

pub record ApiKeyInfo : Type 0 where
  pub organization_id : String
  pub user_id : String

abbrev pub role_of : String → Role
role_of r = if str_eq r "admin" then admin else member

abbrev pub principal_of : User → AuthenticatedPrincipal
principal_of u = record {
  user_id = u.id;
  organization_id = u.organization_id;
  role = role_of u.role;
  email = u.email;
  name = u.name;
}

-- The updates of a user's row.
abbrev pub logged_in : ℕ → User → User
logged_in now u = record u { last_login_at = some now }

abbrev pub without_code : List String → User → User
without_code hashes u = record u { recovery_codes_hash = some hashes }

abbrev pub enrolled : String → User → User
enrolled secret u = record u { mfa_secret_encrypted = some secret; mfa_enabled = false }

abbrev pub confirmed : List String → User → User
confirmed hashes u = record u { mfa_enabled = true; recovery_codes_hash = some hashes }

abbrev pub disabled : User → User
disabled u = record u {
  mfa_enabled = false;
  mfa_secret_encrypted = none;
  recovery_codes_hash = none;
}

abbrev pub with_password : String → User → User
with_password hash u = record u { password_hash = hash }

abbrev pub reset_requested : String → ℕ → User → User
reset_requested hash expires u = record u {
  password_reset_token_hash = some hash;
  password_reset_expires_at = some expires;
}

abbrev pub reset_done : String → User → User
reset_done hash u = record u {
  password_hash = hash;
  password_reset_token_hash = none;
  password_reset_expires_at = none;
}

-- passwordResetTokenHash equals the hash, and passwordResetExpiresAt is later than now.
abbrev pub is_hash : String → Option String → Bool
is_hash hash none = false
is_hash hash (some h) = str_eq h hash

abbrev pub is_after : ℕ → Option ℕ → Bool
is_after now none = false
is_after now (some t) = ltb now t

abbrev pub can_reset : String → ℕ → User → Bool
can_reset hash now u =
    is_hash hash u.password_reset_token_hash && is_after now u.password_reset_expires_at

abbrev pub of_password : {A : Type 0} → Result PasswordError A → Result AccountError A
of_password (ok a) = ok a
of_password (err e) = err (password_error e)

abbrev pub of_secret : {A : Type 0} → Result SecretError A → Result AccountError A
of_secret (ok a) = ok a
of_secret (err e) = err (secret_error e)

abbrev pub of_totp : Option Bool → Result AccountError Bool
of_totp none = err totp_error
of_totp (some b) = ok b

abbrev pub filled_text : Option String → Option String
filled_text none = none
filled_text (some s) = if str_eq s "" then none else some s
