-- ===== src/Users/Welcome.antt =====
-- From an invitation to its user: src/routes/admin/dashboard/user_actions/create_invite.rs, then
-- src/routes/invitations/accept.rs.
use portfolio_server.Http.{Response, finish, Json}
use portfolio_server.Prelude.{
  List, Text, ◌≡◌, any, none, false, count, ok, ◌∷◌, ◌<◌, ◌+◌, arith, [], ◌*◌, refl, text_eq, find?,
  some, text_eq_refl, true, ◌==◌, ◌||◌, text, ◌++◌, update_where, ◌∙◌, ap, sym,
}
use portfolio_server.Env.{
  Env, begin, select_invitation, insert_user, consume_invitation, commit, respond,
}
use portfolio_server.Db.{InvitationRow, Db}
use portfolio_server.Users.Invite.{
  process_create_new_user, new_invitation, insert_invitation_row, CreateUser, clashes, invited,
}
use portfolio_server.Users.Accept.{
  accept_invitation, AcceptInvitationParams, create_from, insert_user_row, has_invitation, is_open,
  is_user_role,
}

-- The statements of an acceptance reach the database.
pub record Accepts (env : Env) : Type 0 where
  pub begins : env.fault begin ≡ none
  pub selects : env.fault select_invitation ≡ none
  pub inserts : env.fault insert_user ≡ none
  pub consumes : env.fault consume_invitation ≡ none
  pub commits : env.fault commit ≡ none

-- The answer, by the token of its link.
abbrev invited_with : Text → Text → Json
invited_with base_url token = Json.field (text "success") (Json.bool true) (
    Json.field (text "message") (Json.str (text "Invitation created successfully.")) (
      Json.field (text "link") (Json.str (base_url ++ (text "/invitation/accept?token=" ++ token)))
        Json.end))

-- What an answered invitation wrote.
invited_rows :
    (env : Env) (base_url : Text) (new : CreateUser) (tx after : Db) (r : Response)
    → process_create_new_user env base_url new tx ≡ (ok r, after)
    → (any (clashes (new_invitation env new)) tx.invitations ≡ false)
      × (after ≡ record tx { invitations = new_invitation env new ∷ tx.invitations })
      × (r ≡ respond env 200 (invited env base_url))
unfolding process_create_new_user insert_invitation_row
invited_rows env base_url new tx after r h = (ground arith, ground arith, ground arith)

no_other :
    (new : InvitationRow) (rows : List InvitationRow)
    → any (clashes new) rows ≡ false
    → count (has_invitation new.id) rows ≡ 0
no_other new [] h = refl
no_other new (row ∷ rows) h = ground (arith, no_other new rows)

-- An answered invitation shows a link that ends in its token. An acceptance with that token less than
-- 24 hours later by the database's clock, with a username and an identifier that are free, answers
-- 200, adds the user under that name, with the role "user" and the password's hash, and marks the
-- invitation as consumed, if the password can be hashed, digests are as before and no statement
-- fails.
pub invited-accepted :
    (env env' : Env) (base_url hash : Text) (new : CreateUser) (params : AcceptInvitationParams)
    (tx after : Db) (r : Response)
    → process_create_new_user env base_url new tx ≡ (ok r, after)
    → Accepts env'
    → params.token ≡ env.new_token
    → env'.sha256_hex ≡ env.sha256_hex
    → env'.now < env.now + 24 * 3600
    → env'.hash_password params.password ≡ ok hash
    → any (λ old. old.user_id == env'.new_uuid || text_eq old.username params.username) after.users
      ≡ false
    → (r
        ≡ respond env 200 (
            Json.field (text "success") (Json.bool true) (
              Json.field (text "message") (Json.str (text "Invitation created successfully.")) (
                Json.field
                  (text "link")
                  (Json.str (base_url ++ (text "/invitation/accept?token=" ++ params.token)))
                  Json.end))))
      × (accept_invitation env' params after ≡ (
        ok (finish 200),
        record after {
          users =
              record {
                user_id = env'.new_uuid;
                username = params.username;
                password_hash = hash;
                totp_secret = none;
                totp_enabled = false;
                role = some (text "user");
                must_change_password = false;
              }
              ∷ after.users;
          invitations =
              update_where
                (λ row. row.id == env.new_uuid)
                (λ row. record row { consumed_at = some env'.now })
                after.invitations;
        },
      ))
unfolding accept_invitation create_from insert_user_row text_eq
invited-accepted env env' base_url hash new params tx after r h up token digest soon hashed free =
    let (fresh, written, shown) = invited_rows env base_url new tx after r h in
    let row = new_invitation env new in
    let found : find? (is_open env' (env'.sha256_hex params.token)) after.invitations ≡ some row =
      rw (written, token, digest)
        (ground (arith, text_eq_refl (env.sha256_hex env.new_token), soon)) in
    let one : count (has_invitation env.new_uuid) after.invitations ≡ 1 =
      rw written (ground (arith, no_other row tx.invitations fresh)) in
    let role : is_user_role row.role ≡ true = refl in
    (
      shown ∙ ap (λ t. respond env 200 (invited_with base_url t)) (sym token),
      ground (
        arith, up.begins, up.selects, up.inserts, up.consumes, up.commits, found, one, role, hashed,
        free,
      ),
    )
