-- ===== src/Auth/Login.antt =====
-- src/routes/login/post.rs and src/routes/login/get.rs: signing in with a password, signing out, and
-- asking who is signed in. The functions take the session's state and give back the one after.
use portfolio_server.Prelude.{
  Text, text, Bool, true, none, some, Result, ok, err, map_err, Exec, pure, ◌>>◌, if◌then◌else◌,
}
use portfolio_server.Http.{Json, Response, finish}
use portfolio_server.Errors.Sql.{Anyhow, context, msg}
use portfolio_server.Errors.Auth.{
  AuthError, rate_limit_exceeded, invalid_credentials, unexpected_error, status_code,
}
use portfolio_server.Errors.Web.{WebError, from_response}
use portfolio_server.Env.{Env, respond}
use portfolio_server.Db.{Db}
use portfolio_server.Types.User.{to_string}
use portfolio_server.Auth.Password.{Validated, validate_credentials}
use portfolio_server.Session.Typed.{
  SessionLib, renew, insert_user_id, get_user_id, insert_mfa_pending_user_id, clear_user_id,
  insert_user_role, get_user_role, log_out,
}

pub record LoginRequest : Type 0 where
  pub username : Text
  pub password : Text

-- The error inside a response, as `to_string` and its sources say it.
abbrev pub anyhow_of : AuthError → Anyhow
anyhow_of rate_limit_exceeded = msg (text "Too many login requests")
anyhow_of (invalid_credentials e) = context (text "Invalid credentials") e
anyhow_of (unexpected_error e) = e

unfoldable pub login_error : AuthError → WebError
unfolding status_code
login_error e = from_response (anyhow_of e) (finish (status_code e))

-- `json!({ name: true })`
abbrev pub flag : Text → Bool → Json
flag name b = Json.field name (Json.bool b) Json.end

-- The answer to a user who is signed in.
abbrev pub signed_in : Env → Bool → Response
signed_in env must_change_password =
    if must_change_password
    then respond env 200 (flag (text "must_change_password") true)
    else finish 200

-- How the error of the credentials is passed on.
abbrev pub wrap_error : AuthError → AuthError
wrap_error rate_limit_exceeded = rate_limit_exceeded
wrap_error (invalid_credentials e) = invalid_credentials (anyhow_of (invalid_credentials e))
wrap_error (unexpected_error e) = unexpected_error (anyhow_of (unexpected_error e))

module _ (S : SessionLib) where
  -- A write to the session, whose error is wrapped.
  abbrev pub write :
      (Anyhow → WebError)
      → (S.State → Result (Unit {0}) Anyhow × S.State)
      → Exec S.State (Unit {0}) WebError
  write wrap f s = let (r, s') = f s in (map_err wrap r, s')

  abbrev pub session_failed : Anyhow → WebError
  session_failed e = login_error (unexpected_error e)

  -- The branch of `login` for credentials that are right.
  unfoldable pub admit : Env → Validated → Exec S.State Response WebError
  unfolding clear_user_id insert_mfa_pending_user_id insert_user_id insert_user_role renew
      login_error
  admit env (user_id, (totp_enabled, (must_change_password, user_role))) s =
      if totp_enabled
      then (write session_failed (insert_mfa_pending_user_id S user_id)
            >> pure (respond env 202 (flag (text "mfa_required") true)))
          (clear_user_id S (renew S s))
      else (write session_failed (insert_user_id S user_id)
            >> (write session_failed (insert_user_role S user_role)
                >> pure (signed_in env must_change_password)))
          (renew S s)

  unfoldable pub login : Env → LoginRequest → Db → Exec S.State Response WebError
  unfolding admit login_error
  login env request pool s =
      elim (validate_credentials env
        (record { username = request.username; password = request.password }) pool) [
          | ok v ↦ admit env v s
          | err e ↦ (err (login_error (wrap_error e)), s)
        ]

  unfoldable pub logout : Exec S.State Response WebError
  unfolding log_out
  logout s = (ok (finish 200), log_out S s)

  unfoldable pub check_auth : Env → S.State → Response × S.State
  unfolding get_user_id get_user_role renew to_string
  check_auth env s = elim (get_user_id S s) [
    | err e ↦ (finish 401, s)
    | ok none ↦ (finish 401, s)
    | ok (some id) ↦ elim (get_user_role S (renew S s)) [
      | err e ↦ (finish 401, renew S s)
      | ok none ↦ (finish 401, renew S s)
      | ok (some role) ↦ (respond env 200 (Json.str (to_string role)), renew S s)
    ]
  ]
