-- ===== src/Credentials.antt =====
-- lib/data/credentials.ts: credentials of an organization, encrypted under its key. The column
-- secretIv is always empty, and the metadata is not modelled.
use b2b_app.Prelude.{
  ℕ, String, Bool, true, ◌&&◌, Option, none, some, List, [], ◌∷◌, ◌++◌, if◌then◌else◌, str_eq,
  Result, ok, err,
}
use b2b_app.Database.{Table}
use b2b_app.Invitations.{AuditEvent}
use b2b_app.Secrets.{SecretError, Ciphers, KeySource, encrypt_secret, decrypt_secret, mask_secret}

pub record Credential : Type 0 where
  pub id : String
  pub organization_id : String
  pub name : String
  pub provider : String
  pub secret_ciphertext : String
  pub masked_value : String
  pub last_used_at : Option ℕ
  pub created_by : Option String

pub record CreateCredentialInput : Type 0 where
  pub name : String
  pub provider : String
  pub secret : String
  pub created_by : Option String

pub record DecryptedCredential : Type 0 where
  pub id : String
  pub provider : String
  pub secret : String

-- What is thrown: the class CredentialRepositoryError by its messages, the errors of the
-- encryption, and the refusal of a row by the database.
pub data CredentialError : Type 0 where
  no_name : CredentialError
  no_secret : CredentialError
  no_credential : CredentialError
  undecryptable : SecretError → CredentialError
  unsealed_secret : SecretError → CredentialError
  refused_row : CredentialError

pub record CredentialDb (C : Type 0) : Type 0 where
  pub credentials : C
  pub audit : List AuditEvent

-- `trim` is `trim()`, and `environment` the master key's variable.
module _ (ciphers : Ciphers) (environment : KeySource ciphers.Bytes) (trim : String → String)
    (credentials : Table Credential) where
  abbrev pub CredentialState : Type 0
  CredentialState = CredentialDb credentials.State

  -- An absent actor is the empty text.
  abbrev pub actor_text : Option String → String
  actor_text none = ""
  actor_text (some a) = a

  abbrev pub credential_audited :
      String → Option String → String → String → CredentialState → CredentialState
  credential_audited org actor action id db = record db {
    audit =
        db.audit
        ++ (record {
          organization_id = org;
          actor_id = actor_text actor;
          action = action;
          resource_type = "credential";
          resource_id = id;
        })
          ∷ [];
  }

  unfoldable pub credential_created :
      String
      → Option String
      → String
      → String
      → Option credentials.State
      → CredentialState
      → Result CredentialError (String × String) × CredentialState
  credential_created org actor id masked none db = (err refused_row, db)
  credential_created org actor id masked (some s) db = (
    ok (id, masked),
    credential_audited org actor "credential.created" id (record db { credentials = s }),
  )

  abbrev pub new_credential : String → CreateCredentialInput → String → String → Credential
  new_credential org input ciphertext id = record {
    id = id;
    organization_id = org;
    name = trim input.name;
    provider = input.provider;
    secret_ciphertext = ciphertext;
    masked_value = mask_secret input.secret;
    last_used_at = none;
    created_by = input.created_by;
  }

  unfoldable pub create_sealed :
      String
      → CreateCredentialInput
      → String
      → Result SecretError String
      → CredentialState
      → Result CredentialError (String × String) × CredentialState
  create_sealed org input id (err e) db = (err (unsealed_secret e), db)
  create_sealed org input id (ok ciphertext) db =
      credential_created org input.created_by id (mask_secret input.secret)
        (credentials.create (new_credential org input ciphertext id) db.credentials) db

  -- createCredential; the iv is drawn at random, and the id by the database.
  unfoldable pub create_credential :
      String
      → CreateCredentialInput
      → ciphers.Bytes
      → String
      → CredentialState
      → Result CredentialError (String × String) × CredentialState
  create_credential org input iv id db =
      if str_eq (trim input.name) ""
      then (err no_name, db)
      else if str_eq input.secret ""
      then (err no_secret, db)
      else create_sealed org input id
          (encrypt_secret ciphers environment KeySource.absent org iv input.secret) db

  abbrev pub is_owned : String → String → Credential → Bool
  is_owned org id c = str_eq c.id id && str_eq c.organization_id org

  abbrev pub used : ℕ → Credential → Credential
  used now c = record c { last_used_at = some now }

  unfoldable pub decrypted :
      Credential
      → Result SecretError String
      → String
      → String
      → ℕ
      → CredentialState
      → Result CredentialError DecryptedCredential × CredentialState
  decrypted c (err e) org id now db = (err (undecryptable e), db)
  decrypted c (ok secret) org id now db = (
    ok (record { id = c.id; provider = c.provider; secret = secret }),
    record db {
      credentials = (credentials.update_many (is_owned org id) (used now) db.credentials).1;
    },
  )

  unfoldable pub decrypt_found :
      Option Credential
      → String
      → String
      → ℕ
      → CredentialState
      → Result CredentialError DecryptedCredential × CredentialState
  decrypt_found none org id now db = (err no_credential, db)
  decrypt_found (some c) org id now db =
      decrypted c (decrypt_secret ciphers environment KeySource.absent org c.secret_ciphertext) org
        id now db

  -- decryptCredential
  unfoldable pub decrypt_credential :
      String
      → String
      → ℕ
      → CredentialState
      → Result CredentialError DecryptedCredential × CredentialState
  decrypt_credential org id now db =
      decrypt_found (credentials.find_first (is_owned org id) db.credentials) org id now db

  unfoldable pub delete_existing :
      Option Credential
      → String
      → String
      → Option String
      → CredentialState
      → Result CredentialError Bool × CredentialState
  delete_existing none org id actor db = (err no_credential, db)
  delete_existing (some c) org id actor db = (
    ok true,
    credential_audited org actor "credential.deleted" id (record db {
      credentials = (credentials.delete_many (λ x. str_eq x.id id) db.credentials).1;
    }),
  )

  -- deleteCredential, whose result stands for no result.
  unfoldable pub delete_credential :
      String
      → String
      → Option String
      → CredentialState
      → Result CredentialError Bool × CredentialState
  delete_credential org id actor db =
      delete_existing (credentials.find_first (is_owned org id) db.credentials) org id actor db
