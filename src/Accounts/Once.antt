-- ===== src/Accounts/Once.antt =====
-- A recovery code signs in once.
use b2b_app.Prelude.{
  ℕ, ◌≤◌, ◌≡◌, ◌≢◌, ◌∙◌, refl, sym, ap, String, Bool, true, false, some, [], if◌then◌else◌, str_eq,
  get_or, mem, count, find, ok, eq_iff, eq_refl, arith,
}
use b2b_app.Database.{Table, map_option, find-map}
use b2b_app.Sessions.{Session}
use b2b_app.Accounts.{
  User, ApiKey, AuthenticatedPrincipal, signed_in, invalid_credentials, Primitives, logged_in,
  without_code, filled_text,
}
use b2b_app.Accounts.Recovery.{remove_first, mem-remove_first}
use b2b_app.Accounts.Service.{
  S, verify, decrypt, totp, recovery_hash, by_email, by_id, update_user, login_recovery, login_totp,
  login_secret, login_envelope, login_code, login_factor, login_password, login_found,
  authenticate_user,
}
use b2b_app.Accounts.Login.{login_recovery-inv, login_password-inv}

module _ (node : Primitives) (users : Table User) (sessions : Table Session)
    (keys : Table ApiKey) where
  -- A user, a code and a time where the code is a recovery code and no one-time password.
  pub record IsRecovery (u : User) (code secret : String) (now : ℕ) : Type 0 where
    pub envelope : String
    pub enabled : u.mfa_enabled ≡ true
    pub stored : filled_text u.mfa_secret_encrypted ≡ some envelope
    pub opened : decrypt node users sessions keys u envelope ≡ ok secret
    pub refused : totp node users sessions keys secret code now ≡ some false

  login_found-IsRecovery :
      (u : User) (password code secret : String) (now : ℕ) (db : S node users sessions keys)
      → IsRecovery u code secret now
      → code ≢ ""
      → verify node users sessions keys password u ≡ ok true
      → login_found node users sessions keys (some u) password (some code) now db
        ≡ login_recovery node users sessions keys u code now db
  unfolding login_found login_password login_factor login_code login_envelope login_secret
      login_totp
  login_found-IsRecovery u password code secret now db r filled right =
      let no : str_eq code "" ≡ false = ground (arith, eq_iff code "") in
      let given : filled_text (some code) ≡ some code = rw no refl in
      ap (λ x. login_password node users sessions keys u x (some code) now db) right
      ∙ ap (λ b. login_factor node users sessions keys u b (some code) now db) r.enabled
      ∙ ap (λ o. login_code node users sessions keys u o now db) given
      ∙ ap (λ o. login_envelope node users sessions keys u code o now db) r.stored
      ∙ ap (λ x. login_secret node users sessions keys u code x now db) r.opened
      ∙ ap (λ o. login_totp node users sessions keys u code o now db) r.refused

  -- A search for a user behind an update of that user's row.
  find-update_user :
      (email : String) (u : User) (f : User → User) (db : S node users sessions keys)
      → ((x : User) → (f x).email ≡ x.email)
      → find (by_email node users sessions keys email) (users.rows db.users) ≡ some u
      → find
          (by_email node users sessions keys email)
          (users.rows (update_user node users sessions keys u.id f db).users)
        ≡ some (f u)
  find-update_user email u f db kept there =
      let q = by_id node users sessions keys u.id in
      let hit : q u ≡ true = eq_refl u.id in
      ap (find (by_email node users sessions keys email)) (users.rows-update_many q f db.users)
      ∙ find-map (by_email node users sessions keys email) (λ x. if q x then f x else x)
          (users.rows db.users) (λ x. either x (q x))
      ∙ ap (map_option (λ x. if q x then f x else x)) there
      ∙ ap (λ b. some (if b then f u else u)) hit
    where
      either :
          (x : User) (b : Bool)
          → by_email node users sessions keys email (if b then f x else x)
            ≡ by_email node users sessions keys email x
      either x true = ap (λ t. str_eq t (node.normalized email)) (kept x)
      either x false = refl

  first_row :
      (email : String) (u : User) (db : S node users sessions keys)
      → find (by_email node users sessions keys email) (users.rows db.users) ≡ some u
      → users.find_first (by_email node users sessions keys email) db.users ≡ some u
  first_row email u db there =
      users.find_first-rows (by_email node users sessions keys email) db.users ∙ there

  password_right :
      (u : User) (password code : String) (now : ℕ) (db db' : S node users sessions keys)
      (p : AuthenticatedPrincipal)
      → login_found node users sessions keys (some u) password (some code) now db
        ≡ ok (signed_in p, db')
      → verify node users sessions keys password u ≡ ok true
  unfolding login_found
  password_right u password code now db db' p e =
      (login_password-inv node users sessions keys u (verify node users sessions keys password u)
        (some code) now db db' p e).0

  unlisted :
      (u : User) (code : String) (now : ℕ) (db : S node users sessions keys)
      → mem (recovery_hash node users sessions keys code) (get_or u.recovery_codes_hash []) ≡ false
      → login_recovery node users sessions keys u code now db ≡ ok (invalid_credentials, db)
  unfolding login_recovery
  unlisted u code now db h = rw h refl

  -- A recovery code is used up by the login that it completes: where a code that is no one-time
  -- password signs a user in, and its hash is stored once, the same login is refused from then on,
  -- at every time at which the code is still no one-time password.
  pub authenticate_user_once :
      (email password code secret : String) (u : User) (now later : ℕ)
      (db db' : S node users sessions keys) (p : AuthenticatedPrincipal)
      → find (by_email node users sessions keys email) (users.rows db.users) ≡ some u
      → IsRecovery u code secret now
      → totp node users sessions keys secret code later ≡ some false
      → code ≢ ""
      → count (recovery_hash node users sessions keys code) (get_or u.recovery_codes_hash []) ≤ 1
      → authenticate_user node users sessions keys email password (some code) now db
        ≡ ok (signed_in p, db')
      → authenticate_user node users sessions keys email password (some code) later db'
        ≡ ok (invalid_credentials, db')
  unfolding authenticate_user
  authenticate_user_once email password code secret u now later db db' p there r refused filled once
        e =
      let hash = recovery_hash node users sessions keys code in
      let hashes = remove_first hash (get_or u.recovery_codes_hash []) in
      let middle = without_code hashes u in
      let e1 =
        ap (λ o. login_found node users sessions keys o password (some code) now db)
          (sym (first_row email u db there))
        ∙ e in
      let right = password_right u password code now db db' p e1 in
      let e2 = sym (login_found-IsRecovery u password code secret now db r filled right) ∙ e1 in
      let (listed, same, after) =
        login_recovery-inv node users sessions keys u code now db db' p e2 in
      let there' =
        ap
          (λ (d : S node users sessions keys).
            find (by_email node users sessions keys email) (users.rows d.users))
          after
        ∙ find-update_user email middle (logged_in now)
            (update_user node users sessions keys u.id (without_code hashes) db) (λ x. refl)
            (find-update_user email u (without_code hashes) db (λ x. refl) there) in
      let r' : IsRecovery (logged_in now middle) code secret later = record {
        envelope = r.envelope;
        enabled = r.enabled;
        stored = r.stored;
        opened = r.opened;
        refused = refused;
      } in
      ap (λ o. login_found node users sessions keys o password (some code) later db')
        (first_row email (logged_in now middle) db' there')
      ∙ login_found-IsRecovery (logged_in now middle) password code secret later db' r' filled right
      ∙ unlisted (logged_in now middle) code later db'
          (mem-remove_first hash (get_or u.recovery_codes_hash []) once)
