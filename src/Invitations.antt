-- ===== src/Invitations.antt =====
-- lib/data/invitations.ts: invitations to an organization, under a hash of their tokens.
pub mod Use
mod Tests
use b2b_app.Prelude.{
  ℕ, zero, suc, ◌+◌, ◌*◌, String, Bool, true, false, ◌&&◌, ◌||◌, not, Option, none, some, List, [],
  ◌∷◌, ◌++◌, if◌then◌else◌, leb, str_eq, get_or, ◌==◌,
}
use b2b_app.Database.{Table, is_none, map_option}

-- Dates are milliseconds.
pub record Invitation : Type 0 where
  pub id : String
  pub organization_id : String
  pub email : String
  pub role : String
  pub token_hash : String
  pub invited_by_id : String
  pub expires_at : ℕ
  pub revoked_at : Option ℕ
  pub accepted_at : Option ℕ
  pub accepted_by_user_id : Option String

pub record InvitationInfo : Type 0 where
  pub id : String
  pub organization_id : String
  pub email : String
  pub role : String
  pub expires_at : ℕ

-- The columns of a user that an invitation fills.
pub record User : Type 0 where
  pub id : String
  pub organization_id : String
  pub email : String
  pub name : String
  pub password_hash : String
  pub role : String

pub record AuditEvent : Type 0 where
  pub organization_id : String
  pub actor_id : String
  pub action : String
  pub resource_type : String
  pub resource_id : String

pub record InvitationInput : Type 0 where
  pub organization_id : String
  pub invited_by_id : String
  pub email : String
  pub role : Option String
  pub ttl_days : Option ℕ

pub record Acceptance : Type 0 where
  pub token : String
  pub name : String
  pub password : String

pub record Member : Type 0 where
  pub user_id : String
  pub organization_id : String
  pub email : String

-- `sha256` is the hex digest and `hash_password` the hash of lib/passwords.ts; `normalized` is
-- `trim().toLowerCase()`, and `trim` is `trim()`.
pub record Texts : Type 0 where
  pub sha256 : String → String
  pub hash_password : String → String
  pub normalized : String → String
  pub trim : String → String

pub record Db (I U : Type 0) : Type 0 where
  pub invitations : I
  pub users : U
  pub audit : List AuditEvent

abbrev pub info_of : Invitation → InvitationInfo
info_of r = record {
  id = r.id;
  organization_id = r.organization_id;
  email = r.email;
  role = r.role;
  expires_at = r.expires_at;
}

abbrev pub is_some : {A : Type 0} → Option A → Bool
is_some none = false
is_some (some a) = true

-- The checks of `resolveInvitation` on the row.
unfoldable pub open_row : ℕ → Invitation → Option InvitationInfo
open_row now r =
    if is_some r.revoked_at || (is_some r.accepted_at || leb r.expires_at now)
    then none
    else some (info_of r)

abbrev pub accept : String → ℕ → Invitation → Invitation
accept user now r = record r { accepted_at = some now; accepted_by_user_id = some user }

abbrev pub revoke : ℕ → Invitation → Invitation
revoke now r = record r { revoked_at = some now }

abbrev pub is_open : String → String → Invitation → Bool
is_open org id r =
    (str_eq r.id id && str_eq r.organization_id org)
    && (is_none r.revoked_at && is_none r.accepted_at)

unfoldable pub open_found : ℕ → Option Invitation → Option InvitationInfo
open_found now none = none
open_found now (some r) = open_row now r

module _ (invitations : Table Invitation) (users : Table User) (texts : Texts)
    (default_ttl_days : ℕ) where
  open texts use {sha256, hash_password, normalized, trim}

  abbrev pub State : Type 0
  State = Db invitations.State users.State

  abbrev pub audited : String → String → String → String → State → State
  audited org actor action resource db = record db {
    audit =
        db.audit
        ++ (record {
          organization_id = org;
          actor_id = actor;
          action = action;
          resource_type = "invitation";
          resource_id = resource;
        })
          ∷ [];
  }

  abbrev pub new_invitation : InvitationInput → String → String → ℕ → Invitation
  new_invitation input token id now = record {
    id = id;
    organization_id = input.organization_id;
    email = normalized input.email;
    role = get_or input.role "member";
    token_hash = sha256 token;
    invited_by_id = input.invited_by_id;
    expires_at = now + get_or input.ttl_days default_ttl_days * 86400000;
    revoked_at = none;
    accepted_at = none;
    accepted_by_user_id = none;
  }

  -- The token and the id are drawn at random. `none` is the exception of a refused row.
  unfoldable pub create_invitation :
      InvitationInput → String → String → ℕ → State → Option ((String × InvitationInfo) × State)
  create_invitation input token id now db =
      let row = new_invitation input token id now in
      map_option {B = (String × InvitationInfo) × State}
        (λ s. (
          (token, info_of row),
          audited input.organization_id input.invited_by_id "invite.sent" id
              (record db { invitations = s }),
        ))
        (invitations.create row db.invitations)

  abbrev pub has_token : String → Invitation → Bool
  has_token token r = str_eq r.token_hash (sha256 token)

  unfoldable pub resolve_invitation : String → ℕ → State → Option InvitationInfo
  resolve_invitation token now db =
      open_found now (invitations.find_first (has_token token) db.invitations)

  abbrev pub new_user : InvitationInfo → Acceptance → String → User
  new_user i input user_id = record {
    id = user_id;
    organization_id = i.organization_id;
    email = i.email;
    name = trim input.name;
    password_hash = hash_password input.password;
    role = i.role;
  }

  -- What follows the transaction's first statement, which creates the user. Where that fails, the
  -- transaction changes nothing, and its exception is passed on.
  unfoldable pub conclude_acceptance :
      InvitationInfo → String → ℕ → Option users.State → State → Option Member × State
  conclude_acceptance i user_id now none db = (none, db)
  conclude_acceptance i user_id now (some us) db = (
    some (record { user_id = user_id; organization_id = i.organization_id; email = i.email }),
    audited i.organization_id user_id "invite.accepted" i.id (record db {
      users = us;
      invitations =
          (invitations.update_many (λ r. str_eq r.id i.id) (accept user_id now) db.invitations).1;
    }),
  )

  abbrev pub email_taken : String → State → Bool
  email_taken email db = is_some (users.find_first (λ u. str_eq u.email email) db.users)

  unfoldable pub accept_found :
      Option InvitationInfo → Acceptance → String → ℕ → State → Option Member × State
  accept_found none input user_id now db = (none, db)
  accept_found (some i) input user_id now db =
      if email_taken i.email db
      then (none, db)
      else conclude_acceptance i user_id now (users.create (new_user i input user_id) db.users) db

  -- `none` stands for null, and for the exception of the transaction.
  unfoldable pub accept_invitation : Acceptance → String → ℕ → State → Option Member × State
  accept_invitation input user_id now db =
      accept_found (resolve_invitation input.token now db) input user_id now db

  unfoldable pub revoke_invitation : String → String → String → ℕ → State → Bool × State
  revoke_invitation org id actor now db =
      let (count, s) = invitations.update_many (is_open org id) (revoke now) db.invitations in
      let db' = record db { invitations = s } in
      if count == 1 then (true, audited org actor "invite.revoked" id db') else (false, db')
