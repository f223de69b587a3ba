-- ===== src/Invitations/Use.antt =====
-- Which invitations can be used, and what accepting one does.
use b2b_app.Prelude.{
  ℕ, ◌<◌, ◌⊎◌, ◌≡◌, ◌∙◌, inl, inr, refl, sym, ap, String, Bool, true, false, ◌||◌, Option, none,
  some, [], ◌∷◌, ◌++◌, map, if◌then◌else◌, leb, str_eq, ◌==◌, find, Bool-cases, arith, eq_refl,
}
use b2b_app.Database.{Table, is_none, find-map}
use b2b_app.Invitations.{
  Invitation, InvitationInfo, User, Acceptance, Member, Texts, info_of, is_some, open_row, accept,
  revoke, State, has_token, resolve_invitation, new_user, conclude_acceptance, accept_invitation,
  accept_found, open_found, email_taken, is_open, revoke_invitation,
}

open_row-info :
    (now : ℕ) (r : Invitation) {i : InvitationInfo}
    → open_row now r ≡ some i
    → (i ≡ info_of r) × (is_open r.organization_id r.id r ≡ true)
unfolding open_row
open_row-info now r {i = i} e =
    let (info, unrevoked, unaccepted) =
      columns r.revoked_at r.accepted_at (leb r.expires_at now) e in
    (info, ground (arith, eq_refl r.id, eq_refl r.organization_id, unrevoked, unaccepted))
  where
    columns :
        (x y : Option ℕ) (late : Bool)
        → (if is_some x || (is_some y || late) then none else some (info_of r)) ≡ some i
        → (i ≡ info_of r) × (is_none x ≡ true) × (is_none y ≡ true)
    columns none none false h = (cc, refl, refl)
    columns none none true h = cc
    columns none (some y) late h = cc
    columns (some x) y late h = cc

open_row-columns :
    (now : ℕ) (r : Invitation) {i : InvitationInfo}
    → open_row now r ≡ some i
    → (i ≡ info_of r) × (r.revoked_at ≡ none) × (r.accepted_at ≡ none) × (now < r.expires_at)
unfolding open_row
open_row-columns now r {i = i} e =
    columns r.revoked_at r.accepted_at (Bool-cases (leb r.expires_at now)) e
  where
    columns :
        (x y : Option ℕ)
        → (leb r.expires_at now ≡ true) ⊎ (leb r.expires_at now ≡ false)
        → (if is_some x || (is_some y || leb r.expires_at now) then none else some (info_of r))
          ≡ some i
        → (i ≡ info_of r) × (x ≡ none) × (y ≡ none) × (now < r.expires_at)
    columns none none (inl late) h = let h' = rw late at h in cc
    columns none none (inr early) h =
        let h' = rw early at h in (cc, refl, refl, ground (arith, early))
    columns none (some y) c h = cc
    columns (some x) y c h = cc

module _ (invitations : Table Invitation) (users : Table User) (texts : Texts)
    (default_ttl_days : ℕ) where
  abbrev S : Type 0
  S = State invitations users texts default_ttl_days

  abbrev holds : String → Invitation → Bool
  holds token r = has_token invitations users texts default_ttl_days token r

  resolve-inv :
      (token : String) (now : ℕ) (db : S) {i : InvitationInfo}
      → resolve_invitation invitations users texts default_ttl_days token now db ≡ some i
      → (r : Invitation) × (find (holds token) (invitations.rows db.invitations) ≡ some r)
        × (open_row now r ≡ some i)
  unfolding resolve_invitation open_found
  resolve-inv token now db {i = i} e =
      found (find (holds token) (invitations.rows db.invitations)) refl
        (ap (open_found now) (sym (invitations.find_first-rows (holds token) db.invitations)) ∙ e)
    where
      found :
          (o : Option Invitation)
          → find (holds token) (invitations.rows db.invitations) ≡ o
          → open_found now o ≡ some i
          → (r : Invitation) × (find (holds token) (invitations.rows db.invitations) ≡ some r)
            × (open_row now r ≡ some i)
      found none there h = cc
      found (some r) there h = (r, there, h)

  -- A row that an update has closed.
  closed_behind :
      (token : String) (later : ℕ) (db : S) (w : Invitation → Bool) (f : Invitation → Invitation)
      (r : Invitation)
      → find (holds token) (invitations.rows db.invitations) ≡ some r
      → ((x : Invitation) → holds token (f x) ≡ holds token x)
      → w r ≡ true
      → open_row later (f r) ≡ none
      → (behind : S) → behind.invitations ≡ (invitations.update_many w f db.invitations).1
      → resolve_invitation invitations users texts default_ttl_days token later behind ≡ none
  unfolding resolve_invitation open_found
  closed_behind token later db w f r there same hit shut behind after =
      let update = λ (x : Invitation). if w x then f x else x in
      let kept = λ (x : Invitation). either x (w x) in
      let found : find (holds token) (map update (invitations.rows db.invitations)) ≡ some (f r) =
        find-map (holds token) update (invitations.rows db.invitations) kept
        ∙ (rw (there, hit) refl) in
      ap (open_found later) (
        invitations.find_first-rows (holds token) behind.invitations
        ∙ ap (λ x. find (holds token) (invitations.rows x)) after
        ∙ ap (find (holds token)) (invitations.rows-update_many w f db.invitations)
        ∙ found)
      ∙ shut
    where
      either : (x : Invitation) (b : Bool) → holds token (if b then f x else x) ≡ holds token x
      either x true = same x
      either x false = refl

  -- What an acceptance did.
  record IsAccepted (input : Acceptance) (user_id : String) (now : ℕ) (db db' : S)
      (i : InvitationInfo) : Type 0 where
    made :
        users.create (new_user invitations users texts default_ttl_days i input user_id) db.users
        ≡ some db'.users
    closed :
        db'.invitations
        ≡ (invitations.update_many (λ r. str_eq r.id i.id) (accept user_id now) db.invitations).1

  accept_found-IsAccepted :
      (o : Option InvitationInfo) (input : Acceptance) (user_id : String) (now : ℕ) (db db' : S)
      (m : Member)
      → accept_found invitations users texts default_ttl_days o input user_id now db ≡ (some m, db')
      → (i : InvitationInfo) × (o ≡ some i)
        × IsAccepted input user_id now db db' i
        × (m ≡ record { user_id = user_id; organization_id = i.organization_id; email = i.email })
  unfolding accept_found conclude_acceptance
  accept_found-IsAccepted none input user_id now db db' m e = cc
  accept_found-IsAccepted (some i) input user_id now db db' m e =
      elim (Bool-cases (email_taken invitations users texts default_ttl_days i.email db)) [
        | inl taken ↦ let h = rw taken at e in cc
        | inr free ↦ created _ refl (rw free at e)
      ]
    where
      created :
          (o : Option users.State)
          → users.create
              (new_user invitations users texts default_ttl_days i input user_id)
              db.users
            ≡ o
          → conclude_acceptance invitations users texts default_ttl_days i user_id now o db
            ≡ (some m, db')
          → (j : InvitationInfo) × (◌≡◌ {A = Option InvitationInfo} (some i) (some j))
            × IsAccepted input user_id now db db' j
            × (m ≡ record {
              user_id = user_id;
              organization_id = j.organization_id;
              email = j.email;
            })
      created none done h = cc
      created (some us) done h =
          let after : db' ≡ _ = sym (ap (λ x. x.1) h) in
          (
            i,
            refl,
            record {
              made = done ∙ ap (λ (d : S). some d.users) (sym after);
              closed = ap (λ (d : S). d.invitations) after;
            },
            cc,
          )

  -- An invitation is used at most once: where `acceptInvitation` returns a member, the token
  -- resolves to nothing from then on.
  pub accept_invitation_once :
      (input : Acceptance) (user_id : String) (now later : ℕ) (db db' : S) (m : Member)
      → accept_invitation invitations users texts default_ttl_days input user_id now db
        ≡ (some m, db')
      → resolve_invitation invitations users texts default_ttl_days input.token later db' ≡ none
  unfolding accept_invitation open_row
  accept_invitation_once input user_id now later db db' m e =
      let (i, resolved, a, member) = accept_found-IsAccepted _ input user_id now db db' m e in
      let (r, there, opened) = resolve-inv input.token now db resolved in
      let (info, opens) = open_row-info now r opened in
      let hit : str_eq r.id i.id ≡ true = rw info (eq_refl r.id) in
      closed_behind input.token later db (λ x. str_eq x.id i.id) (accept user_id now) r there
        (λ x. refl) hit (ground arith) db' a.closed

  -- Where `acceptInvitation` returns a member, the table holds an invitation under the token's hash
  -- that is not revoked, not accepted and not expired, and exactly one user is added: with the
  -- organization, the address and the role of that invitation, and the given name and password.
  pub accept_invitation-users :
      (input : Acceptance) (user_id : String) (now : ℕ) (db db' : S) (m : Member)
      → accept_invitation invitations users texts default_ttl_days input user_id now db
        ≡ (some m, db')
      → (r : Invitation) × (find
            (λ x. str_eq x.token_hash (texts.sha256 input.token))
            (invitations.rows db.invitations)
          ≡ some r)
        × (r.revoked_at ≡ none)
        × (r.accepted_at ≡ none)
        × (now < r.expires_at)
        × (users.rows db'.users
            ≡ users.rows db.users
              ++ (record {
                id = user_id;
                organization_id = r.organization_id;
                email = r.email;
                name = texts.trim input.name;
                password_hash = texts.hash_password input.password;
                role = r.role;
              })
                ∷ [])
        × (m ≡ record { user_id = user_id; organization_id = r.organization_id; email = r.email })
  unfolding accept_invitation
  accept_invitation-users input user_id now db db' m e =
      let (i, resolved, a, member) = accept_found-IsAccepted _ input user_id now db db' m e in
      let (r, there, opened) = resolve-inv input.token now db resolved in
      let (info, unrevoked, unaccepted, in_time) = open_row-columns now r opened in
      (
        r,
        there,
        unrevoked,
        unaccepted,
        in_time,
        users.rows-create _ db.users db'.users a.made
            ∙ ap
                (λ (x : InvitationInfo).
                  users.rows db.users
                  ++ new_user invitations users texts default_ttl_days x input user_id ∷ [])
                info,
        member
            ∙ ap
                (λ (x : InvitationInfo). record {
                  user_id = user_id;
                  organization_id = x.organization_id;
                  email = x.email;
                })
                info,
      )

  -- A revoked invitation resolves to nothing from then on.
  pub resolve_invitation-revoke_invitation :
      (token actor : String) (now revoked later : ℕ) (db : S) (i : InvitationInfo)
      → resolve_invitation invitations users texts default_ttl_days token now db ≡ some i
      → resolve_invitation invitations users texts default_ttl_days token later
          (revoke_invitation invitations users texts default_ttl_days i.organization_id i.id actor
            revoked db).1
        ≡ none
  unfolding revoke_invitation open_row
  resolve_invitation-revoke_invitation token actor now revoked later db i e =
      let (r, there, opened) = resolve-inv token now db e in
      let (info, opens) = open_row-info now r opened in
      let w = is_open i.organization_id i.id in
      let hit : w r ≡ true = rw info opens in
      let (count, rest) = invitations.update_many w (revoke revoked) db.invitations in
      elim (Bool-cases (count == 1)) [
        | inl one ↦ rw one (
            closed_behind token later db w (revoke revoked) r there (λ x. refl) hit (ground arith) _
              refl)
        | inr other ↦ rw other (
            closed_behind token later db w (revoke revoked) r there (λ x. refl) hit (ground arith) _
              refl)
      ]
