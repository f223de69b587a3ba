-- ===== src/Sessions/Liveness.antt =====
-- Which sessions are live, after each operation on the table.
use b2b_app.Prelude.{
  ℕ, ◌+◌, ◌-◌, ◌*◌, ◌≤◌, ◌<◌, ◌≡◌, ◌≢◌, ◌∙◌, refl, sym, ap, String, Bool, true, false, not, ◌&&◌,
  Option, none, some, [], ◌∷◌, ◌++◌, if◌then◌else◌, leb, ltb, str_eq, get_or, all, any, find, arith,
  Bool-cases, Option-cases, inl, inr, eq_iff, eq_refl,
}
use b2b_app.Database.{Table, is_none, map_option, find-map, find-all, find-keep, find-append}
use b2b_app.Sessions.{
  Session, SessionContext, Principal, LiveSession, day_ms, revoked_by, live_row, is_kept, revoke,
  hash_session_id, issue_session_token, new_session, find_session, resolve_jti,
  resolve_live_session, revoke_session, revoke_all_user_sessions_except, prune_expired_sessions,
}

-- No row was revoked after this time.
abbrev pub settled_by : ℕ → Session → Bool
settled_by now r = if is_none r.revoked_at then true else revoked_by now r

live_row-inv :
    (sub : String) (now : ℕ) (r : Session) {l : LiveSession}
    → live_row sub now r ≡ some l
    → (r.user_id ≡ sub)
      × (revoked_by now r ≡ false)
      × (now < r.expires_at)
      × (l.id ≡ r.id)
      × (l.user_id ≡ r.user_id)
unfolding live_row
live_row-inv sub now r e = ground (arith, eq_iff r.user_id sub)

-- A live row behind a revocation was spared by it.
live_row_spared :
    (w : Session → Bool) (sub : String) (now later : ℕ) (r : Session) {l : LiveSession}
    → settled_by now r ≡ true
    → now ≤ later
    → live_row sub later (if w r then revoke now r else r) ≡ some l
    → (w r ≡ false) × (is_none r.revoked_at ≡ true) × (live_row sub later r ≡ some l)
live_row_spared w sub now later r h le e = elim (Bool-cases (w r)) [
  | inl hit ↦
      let (u, alive, in_time, a, b) = live_row-inv sub later (revoke now r) (rw hit at e) in
      ground arith
  | inr miss ↦
      let e' : live_row sub later r ≡ some _ = rw miss at e in
      let (u, alive, in_time, a, b) = live_row-inv sub later r e' in
      (miss, never (r.revoked_at) h alive, e')
]
  where
    never :
        (o : Option ℕ)
        → (if is_none o then true else elim o [ none ↦ false | some t ↦ leb t now ]) ≡ true
        → elim o [ none ↦ false | some t ↦ leb t later ] ≡ false
        → is_none o ≡ true
    never none h alive = refl
    never (some t) h alive = ground arith

module _ (table : Table Session) (sha256 : String → String) where
  open table use {
    State, rows, update_many, find_first-rows, rows-update_many, rows-delete_many, rows-create,
  }

  abbrev by_id : String → Session → Bool
  by_id id r = str_eq r.token_hash (hash_session_id table sha256 id)

  resolve-inv :
      (id : String) (p : Principal) (now : ℕ) (s : State) {l : LiveSession}
      → p.jti ≡ some id
      → resolve_live_session table sha256 p now s ≡ some l
      → (r : Session) × (find (by_id id) (rows s) ≡ some r) × (live_row p.sub now r ≡ some l)
  unfolding resolve_live_session resolve_jti find_session
  resolve-inv id p now s {l = l} e h =
      jti (ap (λ o. resolve_jti table sha256 p.sub o now s) (sym e) ∙ h)
    where
      jti :
          resolve_jti table sha256 p.sub (some id) now s ≡ some l
          → (r : Session) × (find (by_id id) (rows s) ≡ some r) × (live_row p.sub now r ≡ some l)
      jti h = elim (Bool-cases (str_eq id "")) [
        | inl empty ↦ let h' = rw empty at h in cc
        | inr filled ↦ elim (Option-cases (find (by_id id) (rows s))) [
          | inl missing ↦ let h' = rw (filled, find_first-rows (by_id id) s, missing) at h in cc
          | inr (r, there) ↦ (r, there, rw (filled, find_first-rows (by_id id) s, there) at h)
        ]
      ]

  found_behind :
      (w : Session → Bool) (id : String) (now : ℕ) (s : State) (r' : Session)
      → find (by_id id) (rows (update_many w (revoke now) s).1) ≡ some r'
      → (r : Session) × (find (by_id id) (rows s) ≡ some r)
        × (r' ≡ (if w r then revoke now r else r))
  found_behind w id now s r' h =
      let update = λ (r : Session). if w r then revoke now r else r in
      let same = λ (r : Session). insensitive r (w r) in
      let h' : map_option update (find (by_id id) (rows s)) ≡ some r' =
        sym (find-map (by_id id) update (rows s) same)
        ∙ (rw (rows-update_many w (revoke now) s) at h) in
      elim (Option-cases (find (by_id id) (rows s))) [
        | inl missing ↦ let h'' = rw missing at h' in cc
        | inr (r, there) ↦ let h'' : some (update r) ≡ some r' = rw there at h' in (r, there, cc)
      ]
    where
      insensitive : (r : Session) (b : Bool) → by_id id (if b then revoke now r else r) ≡ by_id id r
      insensitive r true = refl
      insensitive r false = refl

  -- A revoked session is dead from that moment on: with no revocation in the table later than
  -- `now`, `resolveLiveSession` finds nothing for its id, at `now` or later, for any user.
  pub resolve_live_session-revoke_session :
      (id : String) (p : Principal) (now later : ℕ) (s : State)
      → p.jti ≡ some id
      → all (settled_by now) (rows s) ≡ true
      → now ≤ later
      → resolve_live_session table sha256 p later (revoke_session table sha256 id now s) ≡ none
  unfolding revoke_session
  resolve_live_session-revoke_session id p now later s e h le =
      elim (Option-cases
        (resolve_live_session table sha256 p later (revoke_session table sha256 id now s))) [
          | inl nothing ↦ nothing
          | inr (l, live) ↦
              let (r', there', live') = resolve-inv id p later _ e live in
              let w = λ (r : Session). by_id id r && is_none r.revoked_at in
              let (r, there, after) = found_behind w id now s r' there' in
              let (old, found) = find-all (by_id id) (settled_by now) (rows s) h there in
              let (miss, never, still) =
                live_row_spared w p.sub now later r old le (rw after at live') in
              ground arith
        ]

  resolve-live :
      (id : String) (p : Principal) (now : ℕ) (s : State) (r : Session) {l : LiveSession}
      → p.jti ≡ some id
      → id ≢ ""
      → find (by_id id) (rows s) ≡ some r
      → live_row p.sub now r ≡ some l
      → resolve_live_session table sha256 p now s ≡ some l
  unfolding resolve_live_session resolve_jti find_session
  resolve-live id p now s r {l = l} e filled there live =
      ap (λ o. resolve_jti table sha256 p.sub o now s) e ∙ jti
    where
      jti : resolve_jti table sha256 p.sub (some id) now s ≡ some l
      jti =
          let no : str_eq id "" ≡ false = ground (arith, eq_iff id "") in
          rw (no, find_first-rows (by_id id) s, there) live

  -- After `revokeAllUserSessionsExcept`, at that moment or later, every session of the user that is
  -- still live is the one to be kept, with no revocation in the table later than `now` before it.
  pub resolve_live_session-revoke_all :
      (user id : String) (kept : Option String) (p : Principal) (now later : ℕ) (s : State)
      → p.jti ≡ some id
      → p.sub ≡ user
      → all (settled_by now) (rows s) ≡ true
      → now ≤ later
      → (l : LiveSession)
      → resolve_live_session table sha256 p later
          (revoke_all_user_sessions_except table sha256 user kept now s).1
        ≡ some l
      → is_kept kept l.id ≡ true
  unfolding revoke_all_user_sessions_except
  resolve_live_session-revoke_all user id kept p now later s e owner h le l live =
      let (r', there', live') = resolve-inv id p later _ e live in
      let w = λ (r : Session).
        str_eq r.user_id user && (is_none r.revoked_at && not (is_kept kept r.id)) in
      let (r, there, after) = found_behind w id now s r' there' in
      let (old, found) = find-all (by_id id) (settled_by now) (rows s) h there in
      let (miss, never, still) = live_row_spared w p.sub now later r old le (rw after at live') in
      let (mine, alive, in_time, same_id, same_user) = live_row-inv p.sub later r still in
      let spared : is_kept kept r.id ≡ true = ground (arith, eq_iff r.user_id user, owner, mine) in
      ap (is_kept kept) same_id ∙ spared

  -- Pruning, at any time before, takes no live session away.
  pub resolve_live_session-prune :
      (id : String) (p : Principal) (days now later : ℕ) (s : State)
      → p.jti ≡ some id
      → id ≢ ""
      → now ≤ later
      → (l : LiveSession) → resolve_live_session table sha256 p later s ≡ some l
      → resolve_live_session table sha256 p later (prune_expired_sessions table sha256 days now s).1
        ≡ some l
  unfolding prune_expired_sessions
  resolve_live_session-prune id p days now later s e filled le l live =
      let (r, there, live') = resolve-inv id p later s e live in
      let (mine, alive, in_time, same_id, same_user) = live_row-inv p.sub later r live' in
      let expired = λ (r : Session). ltb r.expires_at (now - days * day_ms) in
      let survives : not (expired r) ≡ true = ground arith in
      resolve-live id p later _ r e filled
        (rw (rows-delete_many expired s)
          (find-keep (by_id id) (λ r. not (expired r)) (rows s) there survives))
        live'

  -- A session that is issued, under an id whose hash no row has, is live for its user until its time
  -- to live, seven days where none is given, has passed.
  pub resolve_live_session-issue :
      {P : Type 0} (sign : P → String → ℕ → String) (principal : P) (context : SessionContext)
      (id token : String) (p : Principal) (now later : ℕ) (s s' : State)
      → p.jti ≡ some id
      → id ≢ ""
      → p.sub ≡ context.user_id
      → any (by_id id) (rows s) ≡ false
      → later < now + get_or context.ttl_days 7 * day_ms
      → issue_session_token table sha256 sign principal context id now s ≡ some (token, s')
      → resolve_live_session table sha256 p later s'
        ≡ some (record {
          id = id;
          user_id = context.user_id;
          expires_at = now + get_or context.ttl_days 7 * day_ms;
        })
  unfolding issue_session_token live_row
  resolve_live_session-issue sign principal context id token p now later s s' e filled owner fresh
        in_time issued =
      made (table.create row s) refl issued
    where
      row : Session
      row = new_session table sha256 context id now

      live :
          live_row p.sub later row
          ≡ some (record { id = id; user_id = context.user_id; expires_at = row.expires_at })
      live = ground (arith, eq_iff context.user_id p.sub, owner)

      own : by_id id row ≡ true
      own = eq_refl (hash_session_id table sha256 id)

      made :
          (o : Option State)
          → table.create row s ≡ o
          → map_option {B = String × State}
              (λ s2. (sign principal id (get_or context.ttl_days 7), s2))
              o
            ≡ some (token, s')
          → resolve_live_session table sha256 p later s'
            ≡ some (record { id = id; user_id = context.user_id; expires_at = row.expires_at })
      made none done h = cc
      made (some s2) done h =
          let same : s2 ≡ s' = cc in
          let grown : rows s' ≡ rows s ++ row ∷ [] =
            ap rows (sym same) ∙ rows-create row s s2 done in
          let there : find (by_id id) (rows s ++ row ∷ []) ≡ some row =
            find-append (by_id id) (rows s) (row ∷ []) fresh ∙ (rw own refl) in
          resolve-live id p later s' row e filled (rw grown there) live
