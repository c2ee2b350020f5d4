-- ===== src/Auth/ChangePassword.antt =====
-- src/authentication/password.rs: changing a password, with `get_username_by_id` of
-- src/routes/admin/dashboard/user_actions/edit_users.rs.
use portfolio_server.Http.{Response, finish}
use portfolio_server.Db.{UserRow, Db}
use portfolio_server.Prelude.{
  ℕ, Result, Text, none, update_where, err, ok, some, ◌≡◌, text, ◌==◌, false, find?, ◌⊎◌,
  Result-cases, inr, inl, arith, Option-cases,
}
use portfolio_server.Env.{Env, select_username, update_password}
use portfolio_server.Errors.Sql.{Anyhow, context, msg, sqlx, row_not_found}
use portfolio_server.Errors.Auth.{AuthError, unexpected_error}
use portfolio_server.Auth.Password.{Validated, validate_credentials, Credentials}

pub record ChangePasswordBody : Type 0 where
  pub current_password : Text
  pub new_password : Text

-- The column `role` is read as one that is never NULL.
abbrev pub username_of : UserRow → Result Text Anyhow
username_of row = elim row.role [
  | none ↦ err (msg (text "unexpected null; try decoding as an `Option`"))
  | some role ↦ ok row.username
]

unfoldable pub get_username_by_id : Env → ℕ → Db → Result Text Anyhow
get_username_by_id env id pool = elim (env.fault select_username) [
  | some e ↦ err (sqlx e)
  | none ↦ elim (find? (λ row. row.user_id == id) pool.users) [
    | none ↦ err (sqlx row_not_found)
    | some row ↦ username_of row
  ]
]

-- The UPDATE of `change_password`.
abbrev pub with_password : ℕ → Text → Db → Db
with_password id hash pool = record pool {
  users =
      update_where (λ row. row.user_id == id)
        (λ row. record row { password_hash = hash; must_change_password = false }) pool.users;
}

unfoldable pub change_password : Env → ℕ → Text → Db → Result (Unit {0}) Anyhow × Db
change_password env id password pool = elim (env.hash_password password) [
  | err e ↦ (err (context (text "Failed to compute password hash") (msg e)), pool)
  | ok hash ↦ elim (env.fault update_password) [
    | some e ↦ (
      err (context (text "Failed to change the user's password in the database.") (sqlx e)),
      pool,
    )
    | none ↦ (ok tt, with_password id hash pool)
  ]
]

abbrev pub changed : Result (Unit {0}) Anyhow × Db → Result Response AuthError × Db
changed (ok _, pool) = (ok (finish 202), pool)
changed (err e, pool) =
    (err (unexpected_error (context (text "Failed to change password.") e)), pool)

unfoldable pub update_user_password :
    Env → ChangePasswordBody → ℕ → Db → Result Response AuthError × Db
unfolding change_password
update_user_password env body id pool = elim (get_username_by_id env id pool) [
  | err e ↦
      (err (unexpected_error (context (text "Failed to retrieve username for user ID.") e)), pool)
  | ok username ↦
      elim (validate_credentials env
        (record { username = username; password = body.current_password }) pool) [
          | err e ↦ (err e, pool)
          | ok v ↦ changed (change_password env id body.new_password pool)
        ]
]

-- It failed and changed nothing, or the password was right and there is a new hash.
abbrev pub PasswordOutcome :
    Env → ChangePasswordBody → ℕ → Db → Db → Result Response AuthError → Type 0
PasswordOutcome env body id pool after result =
    ((e : AuthError) × (result ≡ err e) × (after ≡ pool))
    ⊎ ((username : Text) × (v : Validated) × (hash : Text) × (get_username_by_id env id pool
          ≡ ok username)
        × (validate_credentials env
              (record { username = username; password = body.current_password }) pool
            ≡ ok v)
        × (env.hash_password body.new_password ≡ ok hash)
        × (after ≡ record pool {
          users =
              update_where (λ row. row.user_id == id)
                (λ row. record row { password_hash = hash; must_change_password = false })
                pool.users;
        })
        × (result ≡ ok (finish 202)))

pub update_user_password_outcome :
    (env : Env) (body : ChangePasswordBody) (id : ℕ) (pool after : Db)
    (result : Result Response AuthError)
    → update_user_password env body id pool ≡ (result, after)
    → PasswordOutcome env body id pool after result
unfolding update_user_password
update_user_password_outcome env body id pool after result h =
    elim (Result-cases (get_username_by_id env id pool)) [
      | inr (e, missing) ↦ inl (
        unexpected_error (context (text "Failed to retrieve username for user ID.") e),
        ground (arith, missing),
        ground (arith, missing),
      )
      | inl (username, named) ↦
          let given : Credentials = record {
            username = username;
            password = body.current_password;
          } in
          elim (Result-cases (validate_credentials env given pool)) [
            | inr (e, wrong) ↦ inl (e, ground (arith, named, wrong), ground (arith, named, wrong))
            | inl (v, right) ↦ elim (Result-cases (env.hash_password body.new_password)) [
              | inr (e, failed) ↦ inl (
                unexpected_error (
                    context (text "Failed to change password.")
                      (context (text "Failed to compute password hash") (msg e))),
                ground (arith, named, right, failed),
                ground (arith, named, right, failed),
              )
              | inl (hash, hashed) ↦ elim (Option-cases (env.fault update_password)) [
                | inr (e, down) ↦ inl (
                  unexpected_error (
                      context (text "Failed to change password.") (
                        context (text "Failed to change the user's password in the database.")
                          (sqlx e))),
                  ground (arith, named, right, hashed, down),
                  ground (arith, named, right, hashed, down),
                )
                | inl up ↦ inr (
                  username,
                  v,
                  hash,
                  named,
                  right,
                  hashed,
                  ground (arith, named, right, hashed, up),
                  ground (arith, named, right, hashed, up),
                )
              ]
            ]
          ]
    ]
