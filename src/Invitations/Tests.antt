-- ===== src/Invitations/Tests.antt =====
-- Concrete invitations.
use b2b_app.Prelude.{◌<◌, find, str_eq, ◌≡◌, refl, none, some, [], ◌∷◌, ◌++◌}
use b2b_app.Database.Memory.{listed}
use b2b_app.Invitations.{
  Invitation, User, Acceptance, Member, Texts, State, info_of, open_row, open_found, accept,
  accept_found, conclude_acceptance, resolve_invitation, accept_invitation, revoke_invitation,
  new_user, audited,
}
use b2b_app.Invitations.Use.{
  accept_invitation_once, accept_invitation-users, resolve_invitation-revoke_invitation,
}

abbrev texts : Texts
texts = record { sha256 = λ s. s; hash_password = λ s. s; normalized = λ s. s; trim = λ s. s }

abbrev sent : Invitation
sent = record {
  id = "i";
  organization_id = "o";
  email = "ann@example.com";
  role = "member";
  token_hash = "secret";
  invited_by_id = "bob";
  expires_at = 5000;
  revoked_at = none;
  accepted_at = none;
  accepted_by_user_id = none;
}

abbrev D : Type 0
D = State (listed Invitation) (listed User) texts 7

abbrev before : D
before = record { invitations = sent ∷ []; users = []; audit = [] }

abbrev form : Acceptance
form = record { token = "secret"; name = "Ann"; password = "pw" }

abbrev ann : Member
ann = record { user_id = "u"; organization_id = "o"; email = "ann@example.com" }

abbrev joined : D
joined = audited (listed Invitation) (listed User) texts 7 "o" "u" "invite.accepted" "i" (record {
  invitations = accept "u" 100 sent ∷ [];
  users = new_user (listed Invitation) (listed User) texts 7 (info_of sent) form "u" ∷ [];
  audit = [];
})

accepted :
    accept_invitation (listed Invitation) (listed User) texts 7 form "u" 100 before
    ≡ (some ann, joined)
unfolding accept_invitation accept_found conclude_acceptance resolve_invitation open_found open_row
accepted = refl

accept_invitation_once_example :
    resolve_invitation (listed Invitation) (listed User) texts 7 "secret" 200 joined ≡ none
accept_invitation_once_example =
    accept_invitation_once (listed Invitation) (listed User) texts 7 form "u" 100 200 before joined
      ann accepted

accept_invitation-users_example :
    (r : Invitation) × (find (λ x. str_eq x.token_hash "secret") (sent ∷ []) ≡ some r)
    × (r.revoked_at ≡ none)
    × (r.accepted_at ≡ none)
    × (100 < r.expires_at)
    × (joined.users
        ≡ []
          ++ (record {
            id = "u";
            organization_id = r.organization_id;
            email = r.email;
            name = "Ann";
            password_hash = "pw";
            role = r.role;
          })
            ∷ [])
    × (ann ≡ record { user_id = "u"; organization_id = r.organization_id; email = r.email })
accept_invitation-users_example =
    accept_invitation-users (listed Invitation) (listed User) texts 7 form "u" 100 before joined ann
      accepted

resolved :
    resolve_invitation (listed Invitation) (listed User) texts 7 "secret" 100 before
    ≡ some (info_of sent)
unfolding resolve_invitation open_found open_row
resolved = refl

resolve_invitation-revoke_invitation_example :
    resolve_invitation
      (listed Invitation)
      (listed User)
      texts
      7
      "secret"
      300
      (revoke_invitation (listed Invitation) (listed User) texts 7 "o" "i" "bob" 200 before).1
    ≡ none
resolve_invitation-revoke_invitation_example =
    resolve_invitation-revoke_invitation (listed Invitation) (listed User) texts 7 "secret" "bob"
      100 200 300 before (info_of sent) resolved
