-- ===== src/Users/Totp.antt =====
-- src/routes/admin/dashboard/totp: setting up, confirming, disabling and asking for a second
-- factor. The statements run outside of a transaction. The secret that `totp_setup` draws and the
-- nonce of its encryption are arguments.
pub mod Machine
mod Moves
pub mod Refines
pub mod Enrolled
use portfolio_server.Prelude.{
  ℕ, Text, text, as_bytes, Bytes, Bool, true, false, none, some, Result, ok, err, if◌then◌else◌,
}
use portfolio_server.Http.{Json, Response, finish}
use portfolio_server.Errors.Sql.{context, msg, sqlx}
use portfolio_server.Errors.Web.{WebError, e500, error_with}
use portfolio_server.Env.{
  Env, respond, select_totp_status, store_totp, enable_totp, disable_totp, select_username,
}
use portfolio_server.Db.{Db, UserRow}
use portfolio_server.Crypto.{Cipher, encrypt}
use portfolio_server.Auth.Password.{validate_credentials}
use portfolio_server.Auth.Login.{flag}
use portfolio_server.Auth.VerifyTotp.{TotpLib, check_code}
use portfolio_server.Users.Rows.{fetch_user, update_user}

unfoldable pub totp_status : Env → ℕ → Db → Result Response WebError
unfolding fetch_user
totp_status env user_id pool = elim (fetch_user env select_totp_status user_id pool) [
  | err e ↦ err (e500 (context (text "Failed to retrieve totp status") (sqlx e)))
  | ok row ↦ ok (respond env 200 (flag (text "totp_enabled") row.totp_enabled))
]

abbrev pub set_secret : Bytes → UserRow → UserRow
set_secret encrypted row = record row { totp_secret = some encrypted }

-- The end of `totp_setup`, after the secret is stored.
abbrev pub answer_uri : Env → TotpLib → Bytes → ℕ → Result Response WebError
answer_uri env lib secret user_id = elim (lib.new_raw_totp secret (env.uuid_text user_id)) [
  | err e ↦ err (e500 e)
  | ok totp ↦
      ok (respond env 200 (Json.field (text "otpauth_uri") (Json.str (lib.get_url totp)) Json.end))
]

unfoldable pub totp_setup :
    Env → TotpLib → Cipher → Bytes → Bytes → Bytes → ℕ → Db → Result Response WebError × Db
unfolding encrypt fetch_user
totp_setup env lib cipher encryption_key secret nonce user_id pool =
    elim (fetch_user env select_totp_status user_id pool) [
      | err e ↦ (err (e500 (context (text "Failed to get totp status") (sqlx e))), pool)
      | ok row ↦
          if row.totp_enabled
          then (ok (finish 409), pool)
          else elim (encrypt cipher nonce encryption_key (as_bytes (lib.to_encoded secret))) [
            | err e ↦ (err (e500 (context (text "Failed to encrypt TOTP secret") e)), pool)
            | ok encrypted ↦ elim (env.fault store_totp) [
              | some e ↦
                  (err (e500 (context (text "Failed to store pending TOTP secret") (sqlx e))), pool)
              | none ↦ (
                answer_uri env lib secret user_id,
                update_user user_id (set_secret encrypted) pool,
              )
            ]
          ]
    ]

abbrev pub enable : UserRow → UserRow
enable row = record row { totp_enabled = true }

unfoldable pub totp_confirm :
    Env → TotpLib → Cipher → Bytes → Text → ℕ → Db → Result Response WebError × Db
unfolding check_code fetch_user
totp_confirm env lib cipher encryption_key code user_id pool =
    elim (fetch_user env select_totp_status user_id pool) [
      | err e ↦ (err (e500 (context (text "Failed to fetch TOTP state") (sqlx e))), pool)
      | ok row ↦ if row.totp_enabled then (ok (finish 409), pool) else elim row.totp_secret [
        | none ↦ (err (error_with 400 (msg (text "No TOTP setup in progres"))), pool)
        | some encrypted ↦ elim (check_code env lib cipher encryption_key user_id encrypted code) [
          | err e ↦ (err (e500 e), pool)
          | ok false ↦ (ok (finish 401), pool)
          | ok true ↦ elim (env.fault enable_totp) [
            | some e ↦ (err (e500 (context (text "Failed to enable TOTP") (sqlx e))), pool)
            | none ↦ (ok (finish 200), update_user user_id enable pool)
          ]
        ]
      ]
    ]

abbrev pub disable : UserRow → UserRow
disable row = record row { totp_secret = none; totp_enabled = false }

unfoldable pub totp_disable : Env → Text → ℕ → Db → Result Response WebError × Db
unfolding fetch_user
totp_disable env password user_id pool = elim (fetch_user env select_username user_id pool) [
  | err e ↦ (err (e500 (context (text "Failed to fetch username") (sqlx e))), pool)
  | ok row ↦
      elim (validate_credentials env (record { username = row.username; password = password })
        pool) [
          | err e ↦ (err (error_with 401 (msg (text "Invalid password"))), pool)
          | ok v ↦ elim (env.fault disable_totp) [
            | some e ↦ (err (e500 (context (text "Failed to disable TOTP") (sqlx e))), pool)
            | none ↦ (ok (finish 200), update_user user_id disable pool)
          ]
        ]
]
