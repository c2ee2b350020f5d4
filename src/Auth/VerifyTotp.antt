-- ===== src/Auth/VerifyTotp.antt =====
-- src/routes/verify_totp/post.rs: the second factor. The library totp-rs is a parameter.
use portfolio_server.Prelude.{
  ℕ, Text, text, Bytes, Bool, true, false, ◌==◌, find?, map_option, Option, none, some, Result, ok,
  err, Exec, pure, ◌>>◌, and_then, ◌++◌,
}
use portfolio_server.Http.{Response, finish}
use portfolio_server.Errors.Sql.{Anyhow, context, msg, sqlx, row_not_found}
use portfolio_server.Errors.Web.{WebError, e500, error_with}
use portfolio_server.Env.{Env, select_totp}
use portfolio_server.Db.{Db, UserRow}
use portfolio_server.Types.User.{UserRole}
use portfolio_server.Auth.Password.{role_or_user}
use portfolio_server.Auth.Login.{signed_in, write}
use portfolio_server.Crypto.{Cipher, decrypt}
use portfolio_server.Session.Typed.{
  SessionLib, get_mfa_pending_user_id, clear_mfa_pending, insert_user_id, insert_user_role,
}

-- `String::from_utf8`; `TOTP::new` of an encoded secret for a user's name, and `check_current` of a
-- code; `to_encoded` of a raw secret, `TOTP::new` of it, and `get_url`.
pub record TotpLib : Type 0 where
  pub from_utf8 : Bytes → Result Text Anyhow
  pub new_totp : Text → Text → Result Bytes Anyhow
  pub check_current : Bytes → Text → Result Bool Anyhow
  pub to_encoded : Bytes → Text
  pub new_raw_totp : Bytes → Text → Result Bytes Anyhow
  pub get_url : Bytes → Text

abbrev pub TotpUser : Type 0
TotpUser = Bytes × (UserRole × Bool)

abbrev pub totp_user : UserRow → Option TotpUser
totp_user row =
    map_option (λ secret. (secret, (role_or_user row.role, row.must_change_password)))
      row.totp_secret

unfoldable pub get_totp_secret_role_and_flags : Env → ℕ → Db → Result (Option TotpUser) Anyhow
get_totp_secret_role_and_flags env user_id pool = elim (env.fault select_totp) [
  | some e ↦ err (context (text "Failed to fetch TOTP secret") (sqlx e))
  | none ↦ elim (find? (λ row. row.user_id == user_id) pool.users) [
    | none ↦ err (context (text "Failed to fetch TOTP secret") (sqlx row_not_found))
    | some row ↦ ok (totp_user row)
  ]
]

-- From the encrypted secret and the code to whether the code is right.
unfoldable pub check_code : Env → TotpLib → Cipher → Bytes → ℕ → Bytes → Text → Result Bool Anyhow
unfolding decrypt
check_code env lib cipher encryption_key user_id encrypted code =
    and_then (decrypt cipher encryption_key encrypted) (λ plain.
      and_then (lib.from_utf8 plain) (λ secret.
        and_then (lib.new_totp secret (env.uuid_text user_id))
          (λ totp. lib.check_current totp code)))

module _ (S : SessionLib) where
  -- The branch for a code that is right.
  unfoldable pub complete : Env → ℕ → UserRole → Bool → Exec S.State Response WebError
  unfolding clear_mfa_pending insert_user_id insert_user_role
  complete env user_id user_role must_change_password s =
      (write S e500 (insert_user_id S user_id)
          >> (write S e500 (insert_user_role S user_role)
              >> pure (signed_in env must_change_password)))
        (clear_mfa_pending S s)

  unfoldable pub verify_totp :
      Env → TotpLib → Cipher → Bytes → Text → Db → Exec S.State Response WebError
  unfolding complete check_code get_totp_secret_role_and_flags get_mfa_pending_user_id
  verify_totp env lib cipher encryption_key code pool s = elim (get_mfa_pending_user_id S s) [
    | err e ↦ (err (e500 e), s)
    | ok none ↦ (err (error_with 401 (msg (text "No MFA session in progress"))), s)
    | ok (some user_id) ↦ elim (get_totp_secret_role_and_flags env user_id pool) [
      | err e ↦ (err (e500 e), s)
      | ok none ↦ (
        err (error_with 401 (msg (text "TOTP not configured for user: " ++ env.uuid_text user_id))),
        s,
      )
      | ok (some (encrypted, (user_role, must_change_password))) ↦
          elim (check_code env lib cipher encryption_key user_id encrypted code) [
            | err e ↦ (err (e500 e), s)
            | ok true ↦ complete env user_id user_role must_change_password s
            | ok false ↦ (ok (finish 401), s)
          ]
    ]
  ]
