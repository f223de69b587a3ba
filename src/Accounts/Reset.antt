-- ===== src/Accounts/Reset.antt =====
-- What a password's reset leaves behind.
use mathlib.Core.Path.{fun_ext}
use b2b_app.Prelude.{
  ℕ, ◌≤◌, ◌≡◌, ◌∙◌, refl, sym, ap, String, Bool, true, false, ◌&&◌, not, Option, none, some, List,
  [], ◌∷◌, map, if◌then◌else◌, str_eq, find, tally, all, Result, ok, err, eq_refl, Bool-cases,
  Option-cases, inl, inr, arith,
}
use b2b_app.Database.{Table, is_none}
use b2b_app.Passwords.{PasswordError, hash_password}
use b2b_app.Sessions.{
  Session, Principal, revoke, resolve_live_session, revoke_all_user_sessions_except,
}
use b2b_app.Sessions.Liveness.{settled_by, resolve_live_session-revoke_all}
use b2b_app.Accounts.{
  User, ApiKey, Primitives, PasswordResetClaims, reset_done, is_hash, is_after, can_reset,
}
use b2b_app.Accounts.Service.{
  S, by_id, is_open_session, reset_user, claims_of, consume_found, consume_password_reset,
}

-- A search for what at most one element holds, behind a change of that element.
module _ {A : Type 0} (p later holds : A → Bool) (f : A → A)
    (others : (x : A) → holds x ≡ false → later (f x) ≡ false)
    (searched : (x : A) → p x ≡ true → holds x ≡ true) where
  find_of_unheld : (xs : List A) → tally holds xs ≤ 0 → find later (map f xs) ≡ none
  find_of_unheld [] h = refl
  find_of_unheld (x ∷ xs) h =
      let free : holds x ≡ false = ground arith in
      rw (others x free) (find_of_unheld xs (ground arith))

  tally_of_find : (xs : List A) {a : A} → find p xs ≡ some a → 1 ≤ tally holds xs
  tally_of_find [] e = cc
  tally_of_find (x ∷ xs) e = elim (Bool-cases (p x)) [
    | inl hit ↦ ground (arith, searched x hit)
    | inr miss ↦ ground (arith, tally_of_find xs (rw miss at e))
  ]

  find_of_changed :
      (xs : List A) {a : A}
      → tally holds xs ≤ 1
      → find p xs ≡ some a
      → later (f a) ≡ false
      → find later (map f xs) ≡ none
  find_of_changed [] h e gone = refl
  find_of_changed (x ∷ xs) {a = a} h e gone = elim (Bool-cases (p x)) [
    | inl hit ↦
        let e' : some x ≡ some a = rw hit at e in
        let same : x ≡ a = cc in
        let held = searched x hit in
        rw (ap (λ y. later (f y)) same ∙ gone) (find_of_unheld xs (ground arith))
    | inr miss ↦
        let e' : find p xs ≡ some a = rw miss at e in
        let more = tally_of_find xs e' in
        let free : holds x ≡ false = ground arith in
        rw (others x free) (find_of_changed xs (ground arith) e' gone)
  ]

and_left : (a b : Bool) → (a && b) ≡ true → a ≡ true
and_left true b h = refl
and_left false b h = h

reset_or_kept :
    (hash new : String) (later : ℕ) (x : User) (b : Bool)
    → is_hash hash x.password_reset_token_hash ≡ false
    → can_reset hash later (if b then reset_done new x else x) ≡ false
reset_or_kept hash new later x true h = refl
reset_or_kept hash new later x false h = ap (λ t. t && is_after later x.password_reset_expires_at) h

module _ (node : Primitives) (users : Table User) (sessions : Table Session)
    (keys : Table ApiKey) where
  abbrev D : Type 0
  D = S node users sessions keys

  -- What a reset did.
  record IsReset (token : String) (now : ℕ) (c : PasswordResetClaims) (db db' : D) : Type 0 where
    user : User
    hash : String
    there : find (can_reset (node.sha256 token) now) (users.rows db.users) ≡ some user
    named : c ≡ claims_of node users sessions keys user
    after : db' ≡ reset_user node users sessions keys user hash now db

  consume-IsReset :
      (token password : String) (salt : node.scrypt.Bytes) (now : ℕ) (db db' : D)
      (c : PasswordResetClaims)
      → consume_password_reset node users sessions keys token password salt now db
        ≡ ok (some c, db')
      → IsReset token now c db db'
  unfolding consume_password_reset consume_found
  consume-IsReset token password salt now db db' c e =
      looked_up (find (can_reset (node.sha256 token) now) (users.rows db.users))
        (hash_password node.scrypt password salt) refl
        (ap
            (λ o.
              consume_found node users sessions keys o (hash_password node.scrypt password salt) now
                db)
            (sym (users.find_first-rows (can_reset (node.sha256 token) now) db.users))
          ∙ e)
    where
      looked_up :
          (o : Option User) (h : Result PasswordError String)
          → find (can_reset (node.sha256 token) now) (users.rows db.users) ≡ o
          → consume_found node users sessions keys o h now db ≡ ok (some c, db')
          → IsReset token now c db db'
      looked_up none h there e' = cc
      looked_up (some u) (err x) there e' = cc
      looked_up (some u) (ok hash) there e' = record {
        user = u;
        hash = hash;
        there = there;
        named = cc;
        after = cc;
      }

  -- Where `consumePasswordReset` resets a password, no session of that user is live from then on,
  -- for any id, with no revocation in the table later than `now` before it.
  pub consume_password_reset-sessions :
      (token password : String) (salt : node.scrypt.Bytes) (now later : ℕ) (db db' : D)
      (c : PasswordResetClaims) (id : String) (p : Principal)
      → consume_password_reset node users sessions keys token password salt now db
        ≡ ok (some c, db')
      → p.jti ≡ some id
      → p.sub ≡ c.user_id
      → all (settled_by now) (sessions.rows db.sessions) ≡ true
      → now ≤ later
      → resolve_live_session sessions node.sha256 p later db'.sessions ≡ none
  unfolding reset_user revoke_all_user_sessions_except
  consume_password_reset-sessions token password salt now later db db' c id p e has owner settled
        le =
      let r = consume-IsReset token password salt now db db' c e in
      let uid = r.user.id in
      let owned : p.sub ≡ uid = owner ∙ ap (λ (x : PasswordResetClaims). x.user_id) r.named in
      let same_test =
        fun_ext {f = is_open_session node users sessions keys uid}
          {g = λ (x : Session). str_eq x.user_id uid && (is_none x.revoked_at && not false)}
          (λ x. ground arith) in
      let moved : db'.sessions
          ≡ (revoke_all_user_sessions_except sessions node.sha256 uid none now db.sessions).1 =
        ap (λ (d : D). d.sessions) r.after
        ∙ ap (λ w. (sessions.update_many w (revoke now) db.sessions).1) same_test in
      elim (Option-cases (resolve_live_session sessions node.sha256 p later db'.sessions)) [
        | inl dead ↦ dead
        | inr (l, live) ↦
            let live' = ap (resolve_live_session sessions node.sha256 p later) (sym moved) ∙ live in
            let kept =
              resolve_live_session-revoke_all sessions node.sha256 uid id none p now later
                db.sessions has owned settled le l live' in
            cc
      ]

  -- A reset's token is used up: where at most one user's row holds its hash, the token resets
  -- nothing from then on.
  pub consume_password_reset_once :
      (token password again : String) (salt salt' : node.scrypt.Bytes) (now later : ℕ) (db db' : D)
      (c : PasswordResetClaims)
      → tally (λ u. is_hash (node.sha256 token) u.password_reset_token_hash) (users.rows db.users)
        ≤ 1
      → consume_password_reset node users sessions keys token password salt now db
        ≡ ok (some c, db')
      → consume_password_reset node users sessions keys token again salt' later db' ≡ ok (none, db')
  unfolding consume_password_reset consume_found reset_user
  consume_password_reset_once token password again salt salt' now later db db' c once e =
      let r = consume-IsReset token password salt now db db' c e in
      let hash = node.sha256 token in
      let w = by_id node users sessions keys r.user.id in
      let f = λ (x : User). if w x then reset_done r.hash x else x in
      let hit : w r.user ≡ true = eq_refl r.user.id in
      let gone =
        find_of_changed (can_reset hash now) (can_reset hash later)
          (λ (u : User). is_hash hash u.password_reset_token_hash) f
          (λ x. reset_or_kept hash r.hash later x (w x))
          (λ x.
            and_left (is_hash hash x.password_reset_token_hash)
              (is_after now x.password_reset_expires_at))
          (users.rows db.users) once r.there (rw hit refl) in
      let missing : users.find_first (can_reset hash later) db'.users ≡ none =
        users.find_first-rows (can_reset hash later) db'.users
        ∙ ap (λ (d : D). find (can_reset hash later) (users.rows d.users)) r.after
        ∙ ap (find (can_reset hash later)) (users.rows-update_many w (reset_done r.hash) db.users)
        ∙ gone in
      ap
        (λ o.
          consume_found node users sessions keys o (hash_password node.scrypt again salt') later
            db')
        missing
