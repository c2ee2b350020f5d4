-- ===== src/Auth/Password.antt =====
-- src/authentication/password.rs: checking credentials against the stored ones.
use portfolio_server.Prelude.{
  ℕ, Text, text, text_eq, Bool, find?, map_option, Option, none, some, Result, ok, err,
  if◌then◌else◌, not,
}
use portfolio_server.Errors.Sql.{Anyhow, msg, sqlx, context}
use portfolio_server.Errors.Auth.{AuthError, invalid_credentials, unexpected_error}
use portfolio_server.Env.{Env, select_credentials}
use portfolio_server.Db.{Db, UserRow}
use portfolio_server.Types.User.{UserRole, user, parse}

pub record Credentials : Type 0 where
  pub username : Text
  pub password : Text

pub record StoredCredentials : Type 0 where
  pub user_id : ℕ
  pub password_hash : Text
  pub totp_enabled : Bool
  pub must_change_password : Bool
  pub role : UserRole

-- `role.and_then(|role| role.parse().ok()).unwrap_or(UserRole::User)`
abbrev pub role_or_user : Option Text → UserRole
role_or_user none = user
role_or_user (some t) = elim (parse t) [ ok role ↦ role | err _ ↦ user ]

abbrev pub stored_of : UserRow → StoredCredentials
stored_of row = record {
  user_id = row.user_id;
  password_hash = row.password_hash;
  totp_enabled = row.totp_enabled;
  must_change_password = row.must_change_password;
  role = role_or_user row.role;
}

unfoldable pub get_stored_credentials : Env → Text → Db → Result (Option StoredCredentials) Anyhow
unfolding parse
get_stored_credentials env username pool = elim (env.fault select_credentials) [
  | some e ↦
      err (context (text "Failed to perform a query to retrieve stored credentials.") (sqlx e))
  | none ↦ ok (map_option stored_of (find? (λ row. text_eq row.username username) pool.users))
]

-- The made-up hash that an unknown user's password is checked against.
abbrev pub made_up_hash : Text
made_up_hash =
    text
      "$argon2id$v=19$m=19456,t=2,p=1$gZiV/M1gPc22ElAH/Jh1Hw$CWOrkoo7oJBQ/iyh7uJ0LO2aLEfrHwTWllSAxT0zRno"

unfoldable pub verify_password_hash : Env → Text → Text → Result (Unit {0}) AuthError
verify_password_hash env expected candidate =
    if not (env.is_phc expected)
    then err (unexpected_error (msg (text "Failed to parse hash in PHC string format.")))
    else if env.verify_password expected candidate
    then ok tt
    else err (invalid_credentials (msg (text "Invalid password.")))

abbrev pub expected_hash : Option StoredCredentials → Text
expected_hash none = made_up_hash
expected_hash (some stored) = stored.password_hash

-- The user, whether a second factor is asked for, whether the password must be changed, the role.
abbrev pub Validated : Type 0
Validated = ℕ × (Bool × (Bool × UserRole))

-- The answer once the hash was verified.
abbrev pub known : Option StoredCredentials → Result Validated AuthError
known none = err (invalid_credentials (msg (text "Unknown username")))
known (some stored) =
    ok (stored.user_id, (stored.totp_enabled, (stored.must_change_password, stored.role)))

unfoldable pub validate_credentials_with_verifier :
    Env
    → Credentials
    → Db
    → (Text → Text → Result (Unit {0}) AuthError)
    → Result Validated AuthError
unfolding get_stored_credentials
validate_credentials_with_verifier env credentials pool verify_fn =
    elim (get_stored_credentials env credentials.username pool) [
      | err e ↦ err (unexpected_error e)
      | ok stored ↦ elim (verify_fn (expected_hash stored) credentials.password) [
        | err e ↦ err e
        | ok _ ↦ known stored
      ]
    ]

unfoldable pub validate_credentials : Env → Credentials → Db → Result Validated AuthError
unfolding validate_credentials_with_verifier verify_password_hash
validate_credentials env credentials pool =
    validate_credentials_with_verifier env credentials pool (verify_password_hash env)
