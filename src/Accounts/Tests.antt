-- ===== src/Accounts/Tests.antt =====
-- A user with a recovery code, over tables in memory.
use b2b_app.Prelude.{
  ◌/◌, ◌≡◌, ◌≢◌, refl, String, true, false, none, some, [], ◌∷◌, ◌++◌, ok, arith, eq_iff, find,
  count, ◌≤◌,
}
use b2b_app.Database.Memory.{listed}
use b2b_app.Passwords.{
  stored_text, verify_password, verify_parts, verify_costs, compare_hash, hash_password,
  stored_hash,
}
use b2b_app.Passwords.Samples.{toy}
use b2b_app.Secrets.{
  KeySource, decrypt_secret, decrypt_segments, unseal_with, derive_tenant_key, resolve_source,
}
use b2b_app.Secrets.Samples.{open_cipher}
use b2b_app.Totp.{verify_totp_code}
use b2b_app.Sessions.{Session, Principal, resolve_live_session}
use b2b_app.Accounts.{
  User, ApiKey, signed_in, invalid_credentials, Primitives, PasswordResetClaims, principal_of,
  logged_in, without_code,
}
use b2b_app.Accounts.Recovery.{hash_recovery_code, normalize_recovery_code, normalize_compact}
use b2b_app.Accounts.Service.{
  S, by_email, verify, authenticate_user, login_found, login_password, login_factor, login_code,
  login_envelope, login_secret, login_totp, login_recovery, conclude_login, consume_password_reset,
  consume_found, reset_user, totp, recovery_hash,
}
use b2b_app.Accounts.Login.{authenticate_user-signed_in, HasSecondFactor}
use b2b_app.Accounts.Once.{authenticate_user_once, IsRecovery}
use b2b_app.Accounts.Reset.{consume_password_reset-sessions, consume_password_reset_once}

abbrev node : Primitives
node = record {
  scrypt = toy;
  ciphers = open_cipher;
  environment = KeySource.text "master";
  hmac = λ key message. key ++ message;
  doubles = record {
    rounded = λ t. t;
    counter_of = λ t. t / 30000;
    exact_below = 1125899906842624;
    exact_small = omega arith;
    rounded_exact = λ t h. refl;
    counter_exact = λ t h. refl;
  };
  sha256 = λ s. s;
  upper = λ s. s;
  trim = λ s. s;
  normalized = λ s. s;
  is_space = λ n. false;
}

abbrev ann : User
ann = record {
  id = "u";
  organization_id = "o";
  email = "ann@example.com";
  name = none;
  role = "admin";
  password_hash = stored_text toy false true;
  mfa_enabled = true;
  mfa_secret_encrypted = some "v1:yiyv:ytyayg:yMyF";
  recovery_codes_hash = some ("ABCD-EFGH" ∷ "JKLM-NPQR" ∷ []);
  password_reset_token_hash = some "token";
  password_reset_expires_at = some 900;
  last_login_at = none;
}

abbrev open_session : Session
open_session = record {
  id = "s";
  user_id = "u";
  token_hash = "s";
  ip_address = none;
  user_agent = none;
  expires_at = 9000;
  revoked_at = none;
  last_used_at = 0;
  created_at = 0;
}

abbrev D : Type 0
D = S node (listed User) (listed Session) (listed ApiKey)

abbrev before : D
before = record { users = ann ∷ []; sessions = open_session ∷ []; keys = []; audit = [] }

abbrev after : D
after = record before { users = logged_in 100 (without_code ("JKLM-NPQR" ∷ []) ann) ∷ [] }

right : verify node (listed User) (listed Session) (listed ApiKey) "pw" ann ≡ ok true
unfolding verify_password verify_parts verify_costs compare_hash stored_text
right = refl

login :
    authenticate_user node
      (listed User)
      (listed Session)
      (listed ApiKey)
      "ann@example.com"
      "pw"
      (some "ABCDEFGH")
      100
      before
    ≡ ok (signed_in (principal_of ann), after)
unfolding authenticate_user login_found login_password login_factor login_code login_envelope
    login_secret login_totp login_recovery conclude_login verify_password verify_parts verify_costs
    compare_hash stored_text decrypt_secret decrypt_segments unseal_with derive_tenant_key
    resolve_source verify_totp_code hash_recovery_code normalize_recovery_code normalize_compact
login = refl

authenticate_user-signed_in_example :
    (u : User) × (find
        (by_email node (listed User) (listed Session) (listed ApiKey) "ann@example.com")
        (ann ∷ [])
      ≡ some u)
    × (verify node (listed User) (listed Session) (listed ApiKey) "pw" u ≡ ok true)
    × HasSecondFactor node (listed User) (listed Session) (listed ApiKey) u (some "ABCDEFGH") 100
    × (principal_of ann ≡ principal_of u)
authenticate_user-signed_in_example =
    authenticate_user-signed_in node (listed User) (listed Session) (listed ApiKey)
      "ann@example.com" "pw" (some "ABCDEFGH") 100 before after (principal_of ann) login

recovery : IsRecovery node (listed User) (listed Session) (listed ApiKey) ann "ABCDEFGH" "MF" 100
unfolding decrypt_secret decrypt_segments unseal_with derive_tenant_key resolve_source
    verify_totp_code
recovery = record {
  envelope = "v1:yiyv:ytyayg:yMyF";
  enabled = refl;
  stored = refl;
  opened = refl;
  refused = refl;
}

refused_later :
    totp node (listed User) (listed Session) (listed ApiKey) "MF" "ABCDEFGH" 200 ≡ some false
unfolding verify_totp_code
refused_later = refl

filled : ◌≢◌ {A = String} "ABCDEFGH" ""
filled = ground (arith, eq_iff "ABCDEFGH" "")

stored_once :
    count
      (recovery_hash node (listed User) (listed Session) (listed ApiKey) "ABCDEFGH")
      ("ABCD-EFGH" ∷ "JKLM-NPQR" ∷ [])
    ≤ 1
unfolding hash_recovery_code normalize_recovery_code normalize_compact
stored_once = omega arith

authenticate_user_once_example :
    authenticate_user node
      (listed User)
      (listed Session)
      (listed ApiKey)
      "ann@example.com"
      "pw"
      (some "ABCDEFGH")
      200
      after
    ≡ ok (invalid_credentials, after)
authenticate_user_once_example =
    authenticate_user_once node (listed User) (listed Session) (listed ApiKey) "ann@example.com"
      "pw" "ABCDEFGH" "MF" ann 100 200 before after (principal_of ann) refl recovery refused_later
      filled stored_once login

abbrev claims : PasswordResetClaims
claims = record { user_id = "u"; organization_id = "o" }

abbrev changed : D
changed =
    reset_user node (listed User) (listed Session) (listed ApiKey) ann (stored_text toy false true)
      100 before

reset :
    consume_password_reset node
      (listed User)
      (listed Session)
      (listed ApiKey)
      "token"
      "pw"
      false
      100
      before
    ≡ ok (some claims, changed)
unfolding consume_password_reset consume_found hash_password stored_hash
reset = refl

abbrev caller : Principal
caller = record { sub = "u"; jti = some "s" }

consume_password_reset-sessions_example :
    resolve_live_session (listed Session) (λ s. s) caller 200 changed.sessions ≡ none
consume_password_reset-sessions_example =
    consume_password_reset-sessions node (listed User) (listed Session) (listed ApiKey) "token" "pw"
      false 100 200 before changed claims "s" caller reset refl refl refl (omega arith)

consume_password_reset_once_example :
    consume_password_reset node
      (listed User)
      (listed Session)
      (listed ApiKey)
      "token"
      "again"
      true
      200
      changed
    ≡ ok (none, changed)
consume_password_reset_once_example =
    consume_password_reset_once node (listed User) (listed Session) (listed ApiKey) "token" "pw"
      "again" false true 100 200 before changed claims (omega arith) reset
