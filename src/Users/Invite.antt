-- ===== src/Users/Invite.antt =====
-- src/routes/admin/dashboard/user_actions/create_invite.rs: inviting a user.
use portfolio_server.Prelude.{
  ℕ, ◌+◌, ◌*◌, Text, text, ◌++◌, Bool, true, ◌==◌, ◌||◌, any, text_eq, not, none, some, Result, ok,
  err, ◌∷◌, if◌then◌else◌,
}
use portfolio_server.Http.{Json, Request, Response}
use portfolio_server.Errors.Sql.{SqlError, context, msg, sqlx}
use portfolio_server.Errors.Web.{WebError, error_with, idempotency}
use portfolio_server.Env.{Env, insert_invitation, respond, unique_violation}
use portfolio_server.Db.{Db, InvitationRow}
use portfolio_server.Types.User.{UserRole}
use portfolio_server.Idempotency.Execute.{execute_idempotent}

pub record CreateUser : Type 0 where
  pub email : Text
  pub role : UserRole

unfoldable pub validate_user : Env → CreateUser → Result (Unit {0}) WebError
validate_user env user =
    if not (env.is_valid_email user.email)
    then err (error_with 400 (msg (text "Invalid email address")))
    else ok tt

-- The row of the INSERT: the role is always "user".
abbrev pub new_invitation : Env → CreateUser → InvitationRow
new_invitation env user = record {
  id = env.new_uuid;
  email = user.email;
  role = text "user";
  invitation_token_hash = env.sha256_hex env.new_token;
  expires_at = env.now + 24 * 3600;
  consumed_at = none;
  created_at = env.now_exact;
}

-- The primary key and the three unique columns of the table.
abbrev pub clashes : InvitationRow → InvitationRow → Bool
clashes new old =
    old.id == new.id
    || text_eq old.email new.email
    || text_eq old.invitation_token_hash new.invitation_token_hash
    || old.created_at == new.created_at

unfoldable pub insert_invitation_row : Env → InvitationRow → Db → Result (Unit {0}) SqlError × Db
insert_invitation_row env row tx = elim (env.fault insert_invitation) [
  | some e ↦ (err e, tx)
  | none ↦
      if any (clashes row) tx.invitations
      then (err (unique_violation env), tx)
      else (ok tt, record tx { invitations = row ∷ tx.invitations })
]

abbrev pub link : Text → Text → Text
link base_url token = base_url ++ (text "/invitation/accept?token=" ++ token)

abbrev pub invited : Env → Text → Json
invited env base_url = Json.field (text "success") (Json.bool true) (
    Json.field (text "message") (Json.str (text "Invitation created successfully."))
      (Json.field (text "link") (Json.str (link base_url env.new_token)) Json.end))

abbrev pub invite_answer : Env → Text → Result (Unit {0}) SqlError → Result Response WebError
invite_answer env base_url (ok _) = ok (respond env 200 (invited env base_url))
invite_answer env base_url (err e) =
    err (error_with 500 (context (text "Failed to create user invitation") (sqlx e)))

unfoldable pub process_create_new_user :
    Env → Text → CreateUser → Db → Result Response WebError × Db
unfolding insert_invitation_row
process_create_new_user env base_url user tx =
    let (result, tx') = insert_invitation_row env (new_invitation env user) tx in
    (invite_answer env base_url result, tx')

unfoldable pub create_user :
    Env → Request → Db → ℕ → Text → CreateUser → Result Response WebError × Db
unfolding validate_user
create_user env request pool user_id base_url user = elim (validate_user env user) [
  | err e ↦ (err e, pool)
  | ok _ ↦
      execute_idempotent idempotency env request pool (some user_id)
        (process_create_new_user env base_url user)
]
