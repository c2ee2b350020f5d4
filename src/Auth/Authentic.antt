-- ===== src/Auth/Authentic.antt =====
-- What a session of src/session_state.rs owes to what its user gave.
use portfolio_server.Types.User.{UserRole}
use portfolio_server.Crypto.{Cipher}
use portfolio_server.Db.{Db}
use portfolio_server.Prelude.{
  List, ◌∷◌, ◌≡◌, Text, ◌⊎◌, true, inl, Result-cases, inr, Bytes, refl, ℕ, false, Bool, ok, some,
  [],
}
use portfolio_server.Env.{Env}
use portfolio_server.Auth.Signed.{carried, asked, signed, not_none}
use portfolio_server.Auth.Guards.{Answer-cases}
use portfolio_server.Auth.Journey.{
  Step, logs_in, verifies, logs_out, checks, password, code, now, before, after, Reach, begins,
  goes_on, Justified, since_sign_out,
}
use portfolio_server.Auth.Login.{login, LoginRequest, logout, check_auth, admit}
use portfolio_server.Auth.VerifyTotp.{
  verify_totp, complete, check_code, get_totp_secret_role_and_flags, TotpLib,
}
use portfolio_server.Auth.Password.{validate_credentials, Credentials}
use portfolio_server.Session.Typed.{
  SessionLib, IsLawful, user_id_key, mfa_pending_key, get_user_id, get_user_role,
  get_mfa_pending_user_id, renew, log_out,
}
use portfolio_server.Auth.Effects.{admit_pending, admit_direct, complete_entries}

module _ (S : SessionLib) (lawful : IsLawful S) where
  login-Justified :
      (env : Env) (request : LoginRequest) (pool : Db) (steps : List Step) (s : S.State)
      → S.is_live s ≡ true
      → Justified S steps s
      → Justified S (logs_in env request pool ∷ steps) (login S env request pool s).1
  unfolding login
  login-Justified env request pool steps s live j =
      let step = logs_in env request pool in
      let given : Credentials = record {
        username = request.username;
        password = request.password;
      } in
      elim (Result-cases (validate_credentials env given pool)) [
        | inr (e, bad) ↦ rw (bad, login) (carried S lawful step steps s s refl refl j)
        | inl ((id, (true, (must, role))), good) ↦
            let (out, p) = admit_pending S lawful env id must role s live in
            rw (good, login)
              (asked S lawful step steps s (admit S env (id, (true, (must, role))) s).1 id
                (password env request pool (must, role) good) out p j)
        | inl ((id, (false, (must, role))), good) ↦
            let (p, u) = admit_direct S lawful env id must role s live in
            rw (good, login)
              (signed S lawful step steps s (admit S env (id, (false, (must, role))) s).1 id
                (inl (now (password env request pool (must, role) good))) (inl p) u j)
      ]

  module _ (env : Env) (lib : TotpLib) (cipher : Cipher) (key : Bytes) (digits : Text)
      (pool : Db) where
    -- The step changes nothing, or it completes the sign-in of the pending user.
    pub verify_totp_cases :
        (s : S.State)
        → ((verify_totp S env lib cipher key digits pool s).1 ≡ s)
          ⊎ ((id : ℕ) × (encrypted : Bytes) × (role : UserRole) × (must : Bool)
              × (get_mfa_pending_user_id S s ≡ ok (some id))
              × (get_totp_secret_role_and_flags env id pool ≡ ok (some (encrypted, (role, must))))
              × (check_code env lib cipher key id encrypted digits ≡ ok true)
              × ((verify_totp S env lib cipher key digits pool s).1
                  ≡ (complete S env id role must s).1))
    unfolding verify_totp
    verify_totp_cases s = elim (Answer-cases (get_mfa_pending_user_id S s)) [
      | inl (e, wrong) ↦ inl (rw (wrong, verify_totp) refl)
      | inr (inl missing) ↦ inl (rw (missing, verify_totp) refl)
      | inr (inr (id, pending)) ↦ elim (Answer-cases (get_totp_secret_role_and_flags env id pool)) [
        | inl (e, wrong) ↦ inl (rw (pending, wrong, verify_totp) refl)
        | inr (inl missing) ↦ inl (rw (pending, missing, verify_totp) refl)
        | inr (inr ((encrypted, (role, must)), stored)) ↦
            elim (Result-cases (check_code env lib cipher key id encrypted digits)) [
              | inr (e, wrong) ↦ inl (rw (pending, stored, wrong, verify_totp) refl)
              | inl (false, differs) ↦ inl (rw (pending, stored, differs, verify_totp) refl)
              | inl (true, fits) ↦ inr (
                id,
                encrypted,
                role,
                must,
                pending,
                stored,
                fits,
                rw (pending, stored, fits, verify_totp) refl,
              )
            ]
      ]
    ]

    verify_totp-Justified :
        (steps : List Step) (s : S.State)
        → S.is_live s ≡ true
        → Justified S steps s
        → Justified S
            (verifies env lib cipher key digits pool ∷ steps)
            (verify_totp S env lib cipher key digits pool s).1
    verify_totp-Justified steps s live j =
        let step = verifies env lib cipher key digits pool in
        elim (verify_totp_cases s) [
          | inl same ↦ rw same (carried S lawful step steps s s refl refl j)
          | inr (id, encrypted, role, must, pending, stored, fits, ran) ↦
              let (p, u) = complete_entries S lawful env id role must s live in
              rw ran (
                signed S lawful step steps s (complete S env id role must s).1 id
                  (inr (
                    before (j.pending id pending),
                    now (code env lib cipher key digits pool encrypted (role, must) stored fits),
                  ))
                  (inr p) u j)
        ]

  logout-Justified : (s : S.State) → Justified S [] (logout S s).1
  unfolding logout log_out get_user_id get_mfa_pending_user_id
  logout-Justified s = record {
    user_id = λ id e.
        elim (not_none S lawful (S.entry (S.purge s) user_id_key) id
          (lawful.entry-purge s user_id_key) e) [ ];
    pending = λ id e.
        elim (not_none S lawful (S.entry (S.purge s) mfa_pending_key) id
          (lawful.entry-purge s mfa_pending_key) e) [ ];
  }

  pub check_auth_state :
      (env : Env) (s : S.State)
      → ((check_auth S env s).1 ≡ s) ⊎ ((check_auth S env s).1 ≡ S.renew s)
  unfolding check_auth renew
  check_auth_state env s = elim (Answer-cases (get_user_id S s)) [
    | inl (e, wrong) ↦ inl (rw (wrong, check_auth) refl)
    | inr (inl missing) ↦ inl (rw (missing, check_auth) refl)
    | inr (inr (id, there)) ↦ elim (Answer-cases (get_user_role S (S.renew s))) [
      | inl (e, wrong) ↦ inr (rw (there, wrong, check_auth) refl)
      | inr (inl missing) ↦ inr (rw (there, missing, check_auth) refl)
      | inr (inr (role, known)) ↦ inr (rw (there, known, check_auth) refl)
    ]
  ]

  check_auth-Justified :
      (env : Env) (steps : List Step) (s : S.State)
      → Justified S steps s
      → Justified S (checks env ∷ steps) (check_auth S env s).1
  check_auth-Justified env steps s j = elim (check_auth_state env s) [
    | inl same ↦ rw same (carried S lawful (checks env) steps s s refl refl j)
    | inr renewed ↦ rw renewed (
        carried S lawful (checks env) steps s (S.renew s) (lawful.entry-renew s user_id_key)
          (lawful.entry-renew s mfa_pending_key) j)
  ]

  after-Justified :
      (step : Step) (steps : List Step) (s : S.State)
      → S.is_live s ≡ true
      → Justified S (since_sign_out steps) s
      → Justified S (since_sign_out (step ∷ steps)) (after S step s)
  unfolding after
  after-Justified (logs_in env request pool) steps s live j =
      login-Justified env request pool (since_sign_out steps) s live j
  after-Justified (verifies env lib cipher key digits pool) steps s live j =
      verify_totp-Justified env lib cipher key digits pool (since_sign_out steps) s live j
  after-Justified logs_out steps s live j = logout-Justified s
  after-Justified (checks env) steps s live j = check_auth-Justified env (since_sign_out steps) s j

  -- The same entries, in the state that the next request finds.
  found_again :
      (steps : List Step) (s s' : S.State)
      → ((key : Text) → S.entry s' key ≡ S.entry s key)
      → Justified S steps s
      → Justified S steps s'
  unfolding get_user_id get_mfa_pending_user_id
  found_again steps s s' same j = record {
    user_id = λ id e. j.user_id id (rw (same user_id_key) at e);
    pending = λ id e. j.pending id (rw (same mfa_pending_key) at e);
  }

  -- In every state that a session reaches by signing in, giving a code, asking and signing out, in
  -- any order, a user who is signed in gave a right password since the last sign-out, and where a
  -- second factor is asked for, a right code too; a user who is pending gave a right password since
  -- then.
  pub Reach-Justified :
      {steps : List Step} {s : S.State} → Reach S steps s → Justified S (since_sign_out steps) s
  unfolding get_user_id get_mfa_pending_user_id
  Reach-Justified (begins s empty) = record {
    user_id = λ id e. elim (not_none S lawful (S.entry s user_id_key) id (empty user_id_key) e) [ ];
    pending = λ id e.
        elim (not_none S lawful (S.entry s mfa_pending_key) id (empty mfa_pending_key) e) [ ];
  }
  Reach-Justified (goes_on step steps s s' reach same live) =
      after-Justified step steps s' live
        (found_again (since_sign_out steps) s s' same (Reach-Justified reach))
