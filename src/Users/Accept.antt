-- ===== src/Users/Accept.antt =====
-- src/routes/invitations/accept.rs: an invitation becomes a user.
use portfolio_server.Prelude.{
  ℕ, zero, suc, Text, text, Bool, false, ◌==◌, ◌&&◌, ◌||◌, any, not, is_some, ltb, count, text_eq,
  find?, update_where, none, some, Result, ok, err, ◌∷◌, if◌then◌else◌,
}
use portfolio_server.Http.{Response, finish}
use portfolio_server.Errors.Sql.{SqlError, database, msg, sqlx}
use portfolio_server.Errors.Web.{WebError, error_with}
use portfolio_server.Env.{
  Env, begin, commit, select_invitation, insert_user, consume_invitation, unique_violation,
}
use portfolio_server.Db.{Db, UserRow, InvitationRow}

pub record AcceptInvitationParams : Type 0 where
  pub token : Text
  pub username : Text
  pub password : Text

-- The condition of the SELECT.
abbrev pub is_open : Env → Text → InvitationRow → Bool
is_open env token_hash row =
    text_eq row.invitation_token_hash token_hash
    && not (is_some row.consumed_at)
    && ltb env.now row.expires_at

-- The labels of the type `user_role`.
abbrev pub is_user_role : Text → Bool
is_user_role t = text_eq t (text "admin") || text_eq t (text "chat_user") || text_eq t (text "user")

abbrev pub new_user : Env → Text → Text → InvitationRow → UserRow
new_user env username hash invitation = record {
  user_id = env.new_uuid;
  username = username;
  password_hash = hash;
  totp_secret = none;
  totp_enabled = false;
  role = some invitation.role;
  must_change_password = false;
}

-- The primary key and the unique column of the table.
abbrev pub same_user : UserRow → UserRow → Bool
same_user new old = old.user_id == new.user_id || text_eq old.username new.username

abbrev pub bad_role : Env → SqlError
bad_role env =
    database (some (text "22P02")) (env.display_db (text "invalid input value for enum user_role"))

-- `execute` of the INSERT, with its cast of the role.
unfoldable pub insert_user_row : Env → Text → UserRow → Db → Result Db SqlError
insert_user_row env role row tx = elim (env.fault insert_user) [
  | some e ↦ err e
  | none ↦
      if not (is_user_role role)
      then err (bad_role env)
      else if any (same_user row) tx.users
      then err (unique_violation env)
      else ok (record tx { users = row ∷ tx.users })
]

abbrev pub has_invitation : ℕ → InvitationRow → Bool
has_invitation id row = row.id == id

abbrev pub consume : Env → InvitationRow → InvitationRow
consume env row = record row { consumed_at = some env.now }

abbrev pub consumed : Env → ℕ → Db → Db
consumed env id tx = record tx {
  invitations = update_where (has_invitation id) (consume env) tx.invitations;
}

abbrev pub failed_user : WebError
failed_user = error_with 500 (msg (text "Failed to create user record"))

abbrev pub server_error : SqlError → WebError
server_error e = error_with 500 (sqlx e)

-- The end of the transaction, by the rows that the UPDATE affected; the INSERT affected one.
abbrev pub conclude : Env → Db → Db → ℕ → Result Response WebError × Db
conclude env pool tx (suc zero) = elim (env.fault commit) [
  | some e ↦ (err (server_error e), pool)
  | none ↦ (ok (finish 200), tx)
]
conclude env pool tx zero = (err failed_user, pool)
conclude env pool tx (suc (suc n)) = (err failed_user, pool)

unfoldable pub create_from :
    Env → AcceptInvitationParams → InvitationRow → Db → Result Response WebError × Db
unfolding insert_user_row
create_from env params invitation pool = elim (env.hash_password params.password) [
  | err e ↦ (err (error_with 500 (msg e)), pool)
  | ok hash ↦
      elim (insert_user_row env invitation.role (new_user env params.username hash invitation)
        pool) [
          | err e ↦ (err (server_error e), pool)
          | ok tx ↦ elim (env.fault consume_invitation) [
            | some e ↦ (err (server_error e), pool)
            | none ↦
                conclude env pool (consumed env invitation.id tx)
                  (count (has_invitation invitation.id) tx.invitations)
          ]
        ]
]

unfoldable pub accept_invitation : Env → AcceptInvitationParams → Db → Result Response WebError × Db
unfolding create_from
accept_invitation env params pool = elim (env.fault begin) [
  | some e ↦ (err (server_error e), pool)
  | none ↦ elim (env.fault select_invitation) [
    | some e ↦ (err (server_error e), pool)
    | none ↦ elim (find? (is_open env (env.sha256_hex params.token)) pool.invitations) [
      | none ↦ (err (error_with 400 (msg (text "Invalid or expired invitation token"))), pool)
      | some invitation ↦ create_from env params invitation pool
    ]
  ]
]
