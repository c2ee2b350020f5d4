-- ===== src/Users/Totp/Refines.antt =====
-- The handlers of src/routes/admin/dashboard/totp, each as a move of the state machine of the second
-- factor.
use portfolio_server.Users.Totp.Moves.{
  refused, by_run, updated, kept, is_on_factor, factor_on, only_factor, factor-set_secret,
  factor_pending, factor_not_on,
}
use portfolio_server.Users.Totp.Machine.{
  on, manage, TotpCall, pending, Moved, disables, sets_up, confirms, asks, Move, factor_of, told,
  already_on, already_set_up, wrong_code, set_up, right_code,
}
use portfolio_server.Errors.Sql.{context, msg, sqlx}
use portfolio_server.Errors.Web.{e500, error_with}
use portfolio_server.Users.Rows.{has_user, update_user, fetch_user-cases}
use portfolio_server.Prelude.{
  true, some, ◌≡◌, ok, text, as_bytes, find?, Option-cases, refl, inr, inl, Bool-cases,
  Result-cases, ap, subst, sym,
}
use portfolio_server.Users.Totp.{
  totp_status, totp_setup, totp_confirm, totp_disable, answer_uri, Cipher, Bytes, Env, UserRow,
  Text, false, ℕ, Db, respond, flag, finish, encrypt, select_totp_status, store_totp, enable_totp,
  select_username, set_secret, disable_totp, enable, disable,
}
use portfolio_server.Auth.VerifyTotp.{TotpLib, check_code}
use portfolio_server.Auth.Password.{validate_credentials, Credentials}

module _ (env : Env) (id : ℕ) (pool : Db) (row : UserRow)
    (here : find? (has_user id) pool.users ≡ some row) where
  totp_status-Moved : Moved env asks id pool row (totp_status env id pool, pool)
  unfolding totp_status
  totp_status-Moved = elim (fetch_user-cases env select_totp_status id pool row here) [
    | inl (e, down) ↦
        refused env id pool row here asks (totp_status env id pool, pool)
          (e500 (context (text "Failed to retrieve totp status") (sqlx e)))
          (rw (down, totp_status) refl)
    | inr got ↦
        by_run env id pool row here asks (totp_status env id pool, pool)
          (ok (respond env 200 (flag (text "totp_enabled") row.totp_enabled)), pool)
          (rw (got, totp_status) refl)
          (kept env id pool row here asks
            (ok (respond env 200 (flag (text "totp_enabled") row.totp_enabled)))
            (told (
              ap (λ b. ok (respond env 200 (flag (text "totp_enabled") b)))
                (sym (is_on_factor env id pool row here)))))
  ]

  totp_setup-Moved :
      (lib : TotpLib) (cipher : Cipher) (key secret nonce : Bytes)
      → Moved env
          (sets_up lib cipher key secret nonce)
          id
          pool
          row
          (totp_setup env lib cipher key secret nonce id pool)
  unfolding totp_setup
  totp_setup-Moved lib cipher key secret nonce =
      let call = sets_up lib cipher key secret nonce in
      let out = totp_setup env lib cipher key secret nonce id pool in
      elim (fetch_user-cases env select_totp_status id pool row here) [
        | inl (e, down) ↦
            refused env id pool row here call out
              (e500 (context (text "Failed to get totp status") (sqlx e)))
              (rw (down, totp_setup) refl)
        | inr got ↦ elim (Bool-cases row.totp_enabled) [
          | inl enabled ↦
              by_run env id pool row here call out (ok (finish 409), pool)
                (rw (got, enabled, totp_setup) refl)
                (kept env id pool row here call (ok (finish 409)) (
                  subst (λ f. Move env id row.username pool call f (ok (finish 409)) f false)
                    (factor_on env id pool row here enabled) (already_set_up refl)))
          | inr free ↦
              elim (Result-cases (encrypt cipher nonce key (as_bytes (lib.to_encoded secret)))) [
                | inr (e, failure) ↦
                    refused env id pool row here call out
                      (e500 (context (text "Failed to encrypt TOTP secret") e))
                      (rw (got, free, failure, totp_setup) refl)
                | inl (encrypted, sealed) ↦ elim (Option-cases (env.fault store_totp)) [
                  | inr (e, down) ↦
                      refused env id pool row here call out
                        (e500 (context (text "Failed to store pending TOTP secret") (sqlx e)))
                        (rw (got, free, sealed, down, totp_setup) refl)
                  | inl up ↦
                      by_run env id pool row here call out
                        (answer_uri env lib secret id, update_user id (set_secret encrypted) pool)
                        (rw (got, free, sealed, up, totp_setup) refl)
                        (updated env id pool row here call (answer_uri env lib secret id)
                          (set_secret encrypted) only_factor
                          (subst
                            (λ g.
                              Move env id row.username pool call (factor_of row)
                                (answer_uri env lib secret id) g true)
                            (factor-set_secret env id pool row here encrypted free)
                            (set_up (factor_not_on env id pool row here free) sealed refl)))
                ]
              ]
        ]
      ]

  totp_confirm-Moved :
      (lib : TotpLib) (cipher : Cipher) (key : Bytes) (code : Text)
      → Moved env
          (confirms lib cipher key code)
          id
          pool
          row
          (totp_confirm env lib cipher key code id pool)
  unfolding totp_confirm
  totp_confirm-Moved lib cipher key code =
      let call = confirms lib cipher key code in
      let out = totp_confirm env lib cipher key code id pool in
      elim (fetch_user-cases env select_totp_status id pool row here) [
        | inl (e, down) ↦
            refused env id pool row here call out
              (e500 (context (text "Failed to fetch TOTP state") (sqlx e)))
              (rw (down, totp_confirm) refl)
        | inr got ↦ elim (Bool-cases row.totp_enabled) [
          | inl enabled ↦
              by_run env id pool row here call out (ok (finish 409), pool)
                (rw (got, enabled, totp_confirm) refl)
                (kept env id pool row here call (ok (finish 409)) (
                  subst (λ f. Move env id row.username pool call f (ok (finish 409)) f false)
                    (factor_on env id pool row here enabled) (already_on refl)))
          | inr free ↦ elim (Option-cases row.totp_secret) [
            | inl no_secret ↦
                refused env id pool row here call out
                  (error_with 400 (msg (text "No TOTP setup in progres")))
                  (rw (got, free, no_secret, totp_confirm) refl)
            | inr (s, secret) ↦ elim (Result-cases (check_code env lib cipher key id s code)) [
              | inr (e, failure) ↦
                  refused env id pool row here call out (e500 e)
                    (rw (got, free, secret, failure, totp_confirm) refl)
              | inl (false, differs) ↦
                  by_run env id pool row here call out (ok (finish 401), pool)
                    (rw (got, free, secret, differs, totp_confirm) refl)
                    (kept env id pool row here call (ok (finish 401)) (
                      subst (λ f. Move env id row.username pool call f (ok (finish 401)) f false)
                        (factor_pending env id pool row here s free secret)
                        (wrong_code differs refl)))
              | inl (true, fits) ↦ elim (Option-cases (env.fault enable_totp)) [
                | inr (e, down) ↦
                    refused env id pool row here call out
                      (e500 (context (text "Failed to enable TOTP") (sqlx e)))
                      (rw (got, free, secret, fits, down, totp_confirm) refl)
                | inl up ↦
                    by_run env id pool row here call out
                      (ok (finish 200), update_user id enable pool)
                      (rw (got, free, secret, fits, up, totp_confirm) refl)
                      (updated env id pool row here call (ok (finish 200)) enable only_factor (
                        subst
                          (λ f.
                            Move env id row.username pool call f (ok (finish 200))
                              (on row.totp_secret) true)
                          (factor_pending env id pool row here s free secret)
                          (subst
                            (λ o.
                              Move env id row.username pool call (pending s) (ok (finish 200))
                                (on o) true)
                            (sym secret) (right_code fits refl))))
              ]
            ]
          ]
        ]
      ]

  totp_disable-Moved :
      (password : Text)
      → Moved env (disables password) id pool row (totp_disable env password id pool)
  unfolding totp_disable
  totp_disable-Moved password =
      let call = disables password in
      let out = totp_disable env password id pool in
      let given : Credentials = record { username = row.username; password = password } in
      elim (fetch_user-cases env select_username id pool row here) [
        | inl (e, down) ↦
            refused env id pool row here call out
              (e500 (context (text "Failed to fetch username") (sqlx e)))
              (rw (down, totp_disable) refl)
        | inr got ↦ elim (Result-cases (validate_credentials env given pool)) [
          | inr (e, wrong) ↦
              refused env id pool row here call out (error_with 401 (msg (text "Invalid password")))
                (rw (got, wrong, totp_disable) refl)
          | inl (v, right) ↦ elim (Option-cases (env.fault disable_totp)) [
            | inr (e, down) ↦
                refused env id pool row here call out
                  (e500 (context (text "Failed to disable TOTP") (sqlx e)))
                  (rw (got, right, down, totp_disable) refl)
            | inl up ↦
                by_run env id pool row here call out (ok (finish 200), update_user id disable pool)
                  (rw (got, right, up, totp_disable) refl)
                  (updated env id pool row here call (ok (finish 200)) disable only_factor
                    (Move.disabled right refl))
          ]
        ]
      ]

-- Each call of a user who is there makes one move of the state machine: it fails, tells whether the
-- factor is on, answers 409 where it is on already, or gets a wrong code, and then changes no table;
-- or it stores a secret whose code must then be given, turns the factor on after the right code for
-- that secret, or turns it off after the user's password, and then changes the two columns of the
-- factor in the user's row and nothing else.
pub manage-Moved :
    (env : Env) (call : TotpCall) (id : ℕ) (pool : Db) (row : UserRow)
    → find? (has_user id) pool.users ≡ some row
    → Moved env call id pool row (manage env call id pool)
unfolding manage
manage-Moved env (sets_up lib cipher key secret nonce) id pool row here =
    totp_setup-Moved env id pool row here lib cipher key secret nonce
manage-Moved env (confirms lib cipher key code) id pool row here =
    totp_confirm-Moved env id pool row here lib cipher key code
manage-Moved env (disables password) id pool row here =
    totp_disable-Moved env id pool row here password
manage-Moved env asks id pool row here = totp_status-Moved env id pool row here
