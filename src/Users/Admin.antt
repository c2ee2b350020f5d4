-- ===== src/Users/Admin.antt =====
-- src/routes/admin/dashboard/user_actions/edit_users.rs: the list of users, their roles, and the
-- duty to change a password. `get_all_users` answers 200 with the list that is given back.
use portfolio_server.Prelude.{
  ℕ, Text, text, Bool, true, List, [], ◌∷◌, none, some, Result, ok, err, and_then,
}
use portfolio_server.Http.{Response, finish}
use portfolio_server.Errors.Sql.{Anyhow, msg, sqlx}
use portfolio_server.Errors.Web.{WebError, error_with}
use portfolio_server.Env.{Env, select_users, update_role, require_change}
use portfolio_server.Db.{Db, UserRow}
use portfolio_server.Types.User.{UserRole, to_string}
use portfolio_server.Users.Rows.{update_user}

pub record User : Type 0 where
  pub user_id : Text
  pub username : Text
  pub role : Text
  pub must_change_password : Bool

-- The columns, with a role that is not NULL.
abbrev pub user_of : Env → UserRow → Result User Anyhow
user_of env row = elim row.role [
  | none ↦ err (msg (text "unexpected null; try decoding as an `Option`"))
  | some role ↦ ok (record {
    user_id = env.uuid_text row.user_id;
    username = row.username;
    role = role;
    must_change_password = row.must_change_password;
  })
]

unfoldable pub read_users : Env → List UserRow → Result (List User) Anyhow
read_users env [] = ok []
read_users env (row ∷ rows) =
    let rest = read_users env rows in
    and_then (user_of env row) (λ user. and_then rest (λ users. ok (user ∷ users)))

abbrev pub or_500 {ℓ} : {A : Type ℓ} → Result A Anyhow → Result A WebError
or_500 (ok a) = ok a
or_500 (err e) = err (error_with 500 e)

unfoldable pub get_all_users : Env → Db → Result (List User) WebError
unfolding read_users
get_all_users env pool = elim (env.fault select_users) [
  | some e ↦ err (error_with 500 (sqlx e))
  | none ↦ or_500 (read_users env (env.scan_users pool.users))
]

abbrev pub set_role : UserRole → UserRow → UserRow
set_role role row = record row { role = some (to_string role) }

-- The answer does not depend on how many rows there were.
unfoldable pub set_user_role : Env → ℕ → UserRole → Db → Result Response WebError × Db
set_user_role env user_id role pool = elim (env.fault update_role) [
  | some e ↦ (err (error_with 500 (sqlx e)), pool)
  | none ↦ (ok (finish 200), update_user user_id (set_role role) pool)
]

abbrev pub require : UserRow → UserRow
require row = record row { must_change_password = true }

unfoldable pub reset_password : Env → ℕ → Db → Result Response WebError × Db
reset_password env user_id pool = elim (env.fault require_change) [
  | some e ↦ (err (error_with 500 (sqlx e)), pool)
  | none ↦ (ok (finish 200), update_user user_id require pool)
]
