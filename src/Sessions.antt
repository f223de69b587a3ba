-- ===== src/Sessions.antt =====
-- lib/data/sessions.ts: sessions as rows of a table, under a hash of their ids.
pub mod Liveness
mod Tests
use b2b_app.Prelude.{
  ℕ, ◌+◌, ◌-◌, ◌*◌, String, Bool, true, false, not, ◌&&◌, Option, none, some, List, if◌then◌else◌,
  leb, ltb, str_eq, get_or,
}
use b2b_app.Database.{Table, is_none, map_option}

-- Dates are milliseconds.
pub record Session : Type 0 where
  pub id : String
  pub user_id : String
  pub token_hash : String
  pub ip_address : Option String
  pub user_agent : Option String
  pub expires_at : ℕ
  pub revoked_at : Option ℕ
  pub last_used_at : ℕ
  pub created_at : ℕ

pub record SessionContext : Type 0 where
  pub user_id : String
  pub ip_address : Option String
  pub user_agent : Option String
  pub ttl_days : Option ℕ

pub record Principal : Type 0 where
  pub sub : String
  pub jti : Option String

pub record LiveSession : Type 0 where
  pub id : String
  pub user_id : String
  pub expires_at : ℕ

abbrev pub day_ms : ℕ
day_ms = 86400000

-- session.revokedAt && session.revokedAt <= now
abbrev pub revoked_by : ℕ → Session → Bool
revoked_by now r = elim r.revoked_at [ none ↦ false | some t ↦ leb t now ]

-- The checks of `resolveLiveSession` on the row.
unfoldable pub live_row : String → ℕ → Session → Option LiveSession
live_row sub now r =
    if not (str_eq r.user_id sub)
    then none
    else if revoked_by now r
    then none
    else if leb r.expires_at now
    then none
    else some (record { id = r.id; user_id = r.user_id; expires_at = r.expires_at })

-- `...(keepSessionId ? { id: { not: keepSessionId } } : {})`: the session that is spared.
abbrev pub is_kept : Option String → String → Bool
is_kept none id = false
is_kept (some k) id = if str_eq k "" then false else str_eq id k

abbrev pub revoke : ℕ → Session → Session
revoke now r = record r { revoked_at = some now }

-- `sha256` is the hex digest of node:crypto, and `sign` is `issueSession` of lib/jwt.ts.
module _ (table : Table Session) (sha256 : String → String) where
  open table use {State, create, update_many, delete_many, find_first}

  unfoldable pub hash_session_id : String → String
  hash_session_id id = sha256 id

  abbrev pub new_session : SessionContext → String → ℕ → Session
  new_session context session_id now = record {
    id = session_id;
    user_id = context.user_id;
    token_hash = hash_session_id session_id;
    ip_address = context.ip_address;
    user_agent = context.user_agent;
    expires_at = now + get_or context.ttl_days 7 * day_ms;
    revoked_at = none;
    last_used_at = now;
    created_at = now;
  }

  -- The id is the one that `newId` draws.
  unfoldable pub issue_session_token :
      {P : Type 0}
      → (P → String → ℕ → String)
      → P
      → SessionContext
      → String
      → ℕ
      → State
      → Option (String × State)
  issue_session_token sign principal context session_id now s =
      map_option (λ s'. (sign principal session_id (get_or context.ttl_days 7), s'))
        (create (new_session context session_id now) s)

  unfoldable pub find_session : String → State → Option Session
  find_session jti s = find_first (λ r. str_eq r.token_hash (hash_session_id jti)) s

  unfoldable pub resolve_jti : String → Option String → ℕ → State → Option LiveSession
  resolve_jti sub none now s = none
  resolve_jti sub (some jti) now s =
      if str_eq jti ""
      then none
      else elim (find_session jti s) [ none ↦ none | some r ↦ live_row sub now r ]

  unfoldable pub resolve_live_session : Principal → ℕ → State → Option LiveSession
  resolve_live_session p now s = resolve_jti p.sub p.jti now s

  unfoldable pub revoke_session : String → ℕ → State → State
  revoke_session id now s =
      (update_many (λ r. str_eq r.token_hash (hash_session_id id) && is_none r.revoked_at)
        (revoke now) s).1

  unfoldable pub revoke_all_user_sessions_except : String → Option String → ℕ → State → ℕ × State
  revoke_all_user_sessions_except user keep now s =
      update_many (λ r. str_eq r.user_id user && (is_none r.revoked_at && not (is_kept keep r.id)))
        (revoke now) s

  unfoldable pub prune_expired_sessions : ℕ → ℕ → State → ℕ × State
  prune_expired_sessions days now s = delete_many (λ r. ltb r.expires_at (now - days * day_ms)) s
