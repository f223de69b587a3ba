-- ===== src/Sessions/Tests.antt =====
-- Concrete sessions.
use b2b_app.Prelude.{
  ℕ, ◌+◌, ◌*◌, ◌≡◌, ◌≢◌, refl, String, true, none, some, List, [], ◌∷◌, arith, eq_iff,
}
use b2b_app.Database.Memory.{listed}
use b2b_app.Sessions.{
  Session, SessionContext, Principal, LiveSession, day_ms, is_kept, live_row, hash_session_id,
  resolve_live_session, revoke_session, revoke_all_user_sessions_except, prune_expired_sessions,
  issue_session_token, resolve_jti, find_session,
}
use b2b_app.Sessions.Liveness.{
  resolve_live_session-revoke_session, resolve_live_session-revoke_all, resolve_live_session-prune,
  resolve_live_session-issue,
}

abbrev plain_hash : String → String
plain_hash s = s

abbrev row : String → String → Session
row id user = record {
  id = id;
  user_id = user;
  token_hash = id;
  ip_address = none;
  user_agent = none;
  expires_at = 5000;
  revoked_at = none;
  last_used_at = 0;
  created_at = 0;
}

abbrev two : List Session
two = row "a" "ann" ∷ row "b" "ann" ∷ []

abbrev holder : String → Principal
holder id = record { sub = "ann"; jti = some id }

resolve_live_session-revoke_session_example :
    resolve_live_session
      (listed Session)
      plain_hash
      (holder "a")
      200
      (revoke_session (listed Session) plain_hash "a" 100 two)
    ≡ none
resolve_live_session-revoke_session_example =
    resolve_live_session-revoke_session (listed Session) plain_hash "a" (holder "a") 100 200 two
      refl refl (omega arith)

abbrev live_b : LiveSession
live_b = record { id = "b"; user_id = "ann"; expires_at = 5000 }

b_lives :
    resolve_live_session
      (listed Session)
      plain_hash
      (holder "b")
      200
      (revoke_all_user_sessions_except (listed Session) plain_hash "ann" (some "b") 100 two).1
    ≡ some live_b
unfolding resolve_live_session resolve_jti find_session revoke_all_user_sessions_except
    hash_session_id live_row
b_lives = refl

resolve_live_session-revoke_all_example : is_kept (some "b") "b" ≡ true
resolve_live_session-revoke_all_example =
    resolve_live_session-revoke_all (listed Session) plain_hash "ann" "b" (some "b") (holder "b")
      100 200 two refl refl refl (omega arith) live_b b_lives

two_lives : resolve_live_session (listed Session) plain_hash (holder "b") 200 two ≡ some live_b
unfolding resolve_live_session resolve_jti find_session hash_session_id live_row
two_lives = refl

b_filled : ◌≢◌ {A = String} "b" ""
b_filled p = ground (arith, eq_iff "b" "", p)

resolve_live_session-prune_example :
    resolve_live_session
      (listed Session)
      plain_hash
      (holder "b")
      200
      (prune_expired_sessions (listed Session) plain_hash 30 150 two).1
    ≡ some live_b
resolve_live_session-prune_example =
    resolve_live_session-prune (listed Session) plain_hash "b" (holder "b") 30 150 200 two refl
      b_filled (omega arith) live_b two_lives

abbrev context : SessionContext
context = record { user_id = "ann"; ip_address = none; user_agent = none; ttl_days = none }

abbrev issued : List Session
issued =
    (record (row "b" "ann") { expires_at = 100 + 7 * day_ms; last_used_at = 100; created_at = 100 })
    ∷ []

b_issued :
    issue_session_token
      (listed Session)
      plain_hash
      (λ (p : ℕ) (id : String) (days : ℕ). id)
      0
      context
      "b"
      100
      []
    ≡ some ("b", issued)
unfolding issue_session_token hash_session_id
b_issued = refl

resolve_live_session-issue_example :
    resolve_live_session (listed Session) plain_hash (holder "b") 200 issued
    ≡ some (record { id = "b"; user_id = "ann"; expires_at = 100 + 7 * day_ms })
resolve_live_session-issue_example =
    resolve_live_session-issue (listed Session) plain_hash (λ (p : ℕ) (id : String) (days : ℕ). id)
      0 context "b" "b" (holder "b") 100 200 [] issued refl b_filled refl refl (omega arith)
      b_issued
