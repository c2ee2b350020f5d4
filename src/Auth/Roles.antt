-- ===== src/Auth/Roles.antt =====
-- The role of a session of src/session_state.rs: whose it is, and since which request.
use portfolio_server.Auth.Effects.{admit_pending}
use portfolio_server.Auth.Authentic.{check_auth_state, verify_totp_cases}
use portfolio_server.Auth.Signed.{not_none}
use portfolio_server.Crypto.{Cipher}
use portfolio_server.Auth.VerifyTotp.{
  TotpLib, get_totp_secret_role_and_flags, check_code, complete, verify_totp,
}
use portfolio_server.Session.Entries.{entry-insert_ne}
use portfolio_server.Auth.Password.{validate_credentials, Credentials}
use portfolio_server.Errors.Web.{WebError, e500}
use portfolio_server.Db.{Db}
use portfolio_server.Errors.Sql.{Anyhow}
use portfolio_server.Http.{Json, Response}
use portfolio_server.Auth.Login.{
  LoginRequest, write, login, admit, logout, session_failed, signed_in,
}
use portfolio_server.Env.{Env}
use portfolio_server.Session.Typed.{
  SessionLib, IsLawful, get_user_id, user_role_key, role_of, get_user_role, user_id_key,
  insert_user_id, insert_user_role, log_out, clear_mfa_pending, renew, mfa_pending_key,
}
use portfolio_server.Prelude.{
  ℕ, some, ok, refl, subst, Text, text_eq, List, ◌≡◌, true, Bool, ◌∷◌, ◌∙◌, false, ◌>>◌, pure,
  arith, Bytes, none, [], inl, Result-cases, inr, sym,
}
use portfolio_server.Auth.Journey.{
  Step, logs_in, verifies, Happened, now, after, before, Reach, begins, checks, goes_on, logs_out,
  since_sign_out,
}
use portfolio_server.Types.User.{admin, user, chat_user, parse, UserRole, to_string}

-- A step after which a user is signed in, with the role that the user's row had.
pub data SignsIn (id : ℕ) (role : UserRole) : Step → Type 0 where
  by_password :
      (env : Env) (request : LoginRequest) (pool : Db) (must : Bool)
      → validate_credentials env
          (record { username = request.username; password = request.password })
          pool
        ≡ ok (id, (false, (must, role)))
      → SignsIn id role (logs_in env request pool)
  by_code :
      (env : Env) (lib : TotpLib) (cipher : Cipher) (key : Bytes) (digits : Text) (pool : Db)
      (encrypted : Bytes) (must : Bool)
      → get_totp_secret_role_and_flags env id pool ≡ ok (some (encrypted, (role, must)))
      → check_code env lib cipher key id encrypted digits ≡ ok true
      → SignsIn id role (verifies env lib cipher key digits pool)

-- `insert` serialises its value and fails where that fails; here values are JSON already.
pub record IsReliable (S : SessionLib) : Type 0 where
  pub inserts :
      (s : S.State) (k : Text) (v : Json) → S.is_live s ≡ true → (S.insert k v s).0 ≡ ok tt

parse-to_string : (role : UserRole) → role_of (parse (to_string role)) ≡ some role
unfolding parse to_string text_eq
parse-to_string admin = refl
parse-to_string user = refl
parse-to_string chat_user = refl

module _ (S : SessionLib) (lawful : IsLawful S) (reliable : IsReliable S) where
  -- Two writes that succeed, and an answer.
  both_written :
      (wrap : Anyhow → WebError) (answer : Response) (k j : Text) (v u : Json) (s : S.State)
      → S.is_live s ≡ true
      → ((write S wrap (S.insert k v) >> (write S wrap (S.insert j u) >> pure answer)) s).1
        ≡ (S.insert j u (S.insert k v s).1).1
  both_written wrap answer k j v u s live =
      let first = reliable.inserts s k v live in
      let second = reliable.inserts (S.insert k v s).1 j u (lawful.live-insert s k v ∙ live) in
      rw (first, second) refl

  abbrev signed_in_as : ℕ → UserRole → S.State → S.State
  signed_in_as id role s =
      (S.insert user_role_key (Json.str (to_string role))
        (S.insert user_id_key (S.uuid_to_json id) s).1).1

  -- The user and the role that are there belong together.
  abbrev pub Tied : List Step → S.State → Type 0
  Tied steps s =
      (id : ℕ) (role : UserRole)
      → get_user_id S s ≡ ok (some id)
      → get_user_role S s ≡ ok (some role)
      → Happened (SignsIn id role) steps

  signed_in_as-Tied :
      (step : Step) (steps : List Step) (id : ℕ) (role : UserRole) (s : S.State)
      → S.is_live s ≡ true
      → SignsIn id role step
      → Tied (step ∷ steps) (signed_in_as id role s)
  unfolding get_user_id get_user_role text_eq
  signed_in_as-Tied step steps id role s live signs other r is has =
      let s1 = (S.insert user_id_key (S.uuid_to_json id) s).1 in
      let live1 : S.is_live s1 ≡ true =
        lawful.live-insert s user_id_key (S.uuid_to_json id) ∙ live in
      let v = Json.str (to_string role) in
      let name : S.entry (signed_in_as id role s) user_id_key ≡ some (S.uuid_to_json id) =
        entry-insert_ne S lawful s1 user_role_key user_id_key v live1 refl
        ∙ lawful.insert-ok s user_id_key user_id_key (S.uuid_to_json id) live
            (reliable.inserts s user_id_key (S.uuid_to_json id) live) in
      let what : S.entry (signed_in_as id role s) user_role_key ≡ some v =
        lawful.insert-ok s1 user_role_key user_role_key v live1
          (reliable.inserts s1 user_role_key v live1) in
      let one : id ≡ other = ground (arith, name, is, lawful.uuid id) in
      let two : role ≡ r = ground (arith, what, has, parse-to_string role) in
      now (subst (λ i. SignsIn i r step) one (subst (λ x. SignsIn id x step) two signs))

  -- A step that leaves the user and the role as they were, and one after which nobody is signed in.
  same-Tied :
      (step : Step) (steps : List Step) (s s' : S.State)
      → S.entry s' user_id_key ≡ S.entry s user_id_key
      → S.entry s' user_role_key ≡ S.entry s user_role_key
      → Tied steps s
      → Tied (step ∷ steps) s'
  unfolding get_user_id get_user_role
  same-Tied step steps s s' u r tied id role is has =
      before (tied id role (rw u at is) (rw r at has))

  nobody-Tied : (steps : List Step) (s : S.State) → S.entry s user_id_key ≡ none → Tied steps s
  unfolding get_user_id
  nobody-Tied steps s out id role is has =
      elim (not_none S lawful (S.entry s user_id_key) id out is) [ ]

  login-Tied :
      (env : Env) (request : LoginRequest) (pool : Db) (steps : List Step) (s : S.State)
      → S.is_live s ≡ true
      → Tied steps s
      → Tied (logs_in env request pool ∷ steps) (login S env request pool s).1
  unfolding login admit insert_user_id insert_user_role renew
  login-Tied env request pool steps s live tied =
      let step = logs_in env request pool in
      let given : Credentials = record {
        username = request.username;
        password = request.password;
      } in
      elim (Result-cases (validate_credentials env given pool)) [
        | inr (e, bad) ↦ rw (bad, login) (same-Tied step steps s s refl refl tied)
        | inl ((id, (true, (must, role))), good) ↦
            rw (good, login)
              (nobody-Tied (step ∷ steps) _ (admit_pending S lawful env id must role s live).0)
        | inl ((id, (false, (must, role))), good) ↦
            let renewed = lawful.live-renew s ∙ live in
            let wrote =
              both_written (session_failed S) (signed_in env must) user_id_key user_role_key
                (S.uuid_to_json id) (Json.str (to_string role)) (S.renew s) renewed in
            rw (good, login, admit)
              (subst (Tied (step ∷ steps)) (sym wrote) (
                signed_in_as-Tied step steps id role (S.renew s) renewed
                  (by_password env request pool must good)))
      ]

  verify_totp-Tied :
      (env : Env) (lib : TotpLib) (cipher : Cipher) (key : Bytes) (digits : Text) (pool : Db)
      (steps : List Step) (s : S.State)
      → S.is_live s ≡ true
      → Tied steps s
      → Tied
          (verifies env lib cipher key digits pool ∷ steps)
          (verify_totp S env lib cipher key digits pool s).1
  unfolding complete insert_user_id insert_user_role clear_mfa_pending
  verify_totp-Tied env lib cipher key digits pool steps s live tied =
      let step = verifies env lib cipher key digits pool in
      elim (verify_totp_cases S lawful env lib cipher key digits pool s) [
        | inl same ↦ rw same (same-Tied step steps s s refl refl tied)
        | inr (id, encrypted, role, must, pending, stored, fits, ran) ↦
            let s0 = S.remove mfa_pending_key s in
            let live0 = lawful.live-remove s mfa_pending_key ∙ live in
            let wrote =
              both_written e500 (signed_in env must) user_id_key user_role_key (S.uuid_to_json id)
                (Json.str (to_string role)) s0 live0 in
            subst (Tied (step ∷ steps)) (sym (ran ∙ wrote)) (
              signed_in_as-Tied step steps id role s0 live0
                (by_code env lib cipher key digits pool encrypted must stored fits))
      ]

  after-Tied :
      (step : Step) (steps : List Step) (s : S.State)
      → S.is_live s ≡ true
      → Tied (since_sign_out steps) s
      → Tied (since_sign_out (step ∷ steps)) (after S step s)
  unfolding after logout log_out
  after-Tied (logs_in env request pool) steps s live tied =
      login-Tied env request pool (since_sign_out steps) s live tied
  after-Tied (verifies env lib cipher key digits pool) steps s live tied =
      verify_totp-Tied env lib cipher key digits pool (since_sign_out steps) s live tied
  after-Tied logs_out steps s live tied =
      nobody-Tied [] (S.purge s) (lawful.entry-purge s user_id_key)
  after-Tied (checks env) steps s live tied = elim (check_auth_state S lawful env s) [
    | inl same ↦ rw same (same-Tied (checks env) (since_sign_out steps) s s refl refl tied)
    | inr renewed ↦ rw renewed (
        same-Tied (checks env) (since_sign_out steps) s (S.renew s)
          (lawful.entry-renew s user_id_key) (lawful.entry-renew s user_role_key) tied)
  ]

  found_again :
      (steps : List Step) (s s' : S.State)
      → ((key : Text) → S.entry s' key ≡ S.entry s key)
      → Tied steps s
      → Tied steps s'
  unfolding get_user_id get_user_role
  found_again steps s s' same tied id role is has =
      tied id role (rw (same user_id_key) at is) (rw (same user_role_key) at has)

  -- Where writes to the session succeed, in every state that it reaches by signing in, giving a code,
  -- asking and signing out, in any order, the role that goes with the user is the one that this
  -- user's row had at a step that signed the user in, since the last sign-out.
  pub Reach-Tied :
      {steps : List Step} {s : S.State} → Reach S steps s → Tied (since_sign_out steps) s
  Reach-Tied (begins s empty) = nobody-Tied [] s (empty user_id_key)
  Reach-Tied (goes_on step steps s s' reach same live) =
      after-Tied step steps s' live
        (found_again (since_sign_out steps) s s' same (Reach-Tied reach))
