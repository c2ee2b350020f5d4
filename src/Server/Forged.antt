-- ===== src/Server/Forged.antt =====
-- What a request to src/startup.rs can do that another site made a browser send: one with a safe
-- method, or without the token of src/authentication/middleware.rs.
use portfolio_server.Auth.Authentic.{check_auth_state}
use portfolio_server.Errors.Sql.{Anyhow}
use portfolio_server.Server.Permitted.{AdminOf, respond_to-Changed}
use portfolio_server.Users.ChatToken.{JwtLib}
use portfolio_server.Startup.Guarded.{needs_user, needs_admin}
use portfolio_server.Session.Typed.{SessionLib, IsLawful}
use portfolio_server.Users.Rows.{update_user, fetch_user}
use portfolio_server.Startup.Token.{HasToken}
use portfolio_server.Startup.Runs.{method_of, Runs}
use portfolio_server.Server.Changes.{step_of, caller, endpoint_of, Changed, wrote, stepped, kept}
use portfolio_server.Auth.Middleware.{is_safe}
use portfolio_server.Crypto.{Cipher, encrypt}
use portfolio_server.Db.{Db}
use portfolio_server.Http.{Request, Response}
use portfolio_server.Auth.VerifyTotp.{TotpLib}
use portfolio_server.Server.{AppData, Inputs, World, respond_to}
use portfolio_server.Env.{Env, select_totp_status, store_totp}
use portfolio_server.Users.Totp.{totp_setup, set_secret}
use portfolio_server.Prelude.{
  ℕ, inl, inr, some, refl, text_eq, ◌≡◌, Bytes, ◌⊎◌, true, arith, Result-cases, Bool-cases,
  as_bytes, Option-cases, false, Text, Option, Result, ap, ◌∙◌, sym, subst,
}
use portfolio_server.Startup.{Endpoint}
use portfolio_server.System.{
  Call, serve, posts_message, marks_message, inserts, edits, publishes, deletes, invites, accepts,
  manages, changes_password, sets_role, resets,
}
use portfolio_server.Users.Totp.Machine.{TotpCall, sets_up, confirms, disables, manage}
use portfolio_server.Auth.Journey.{Step, checks, after}

-- Setting up the second factor writes the secret of the user, or nothing.
totp_setup-writes :
    (env : Env) (lib : TotpLib) (cipher : Cipher) (key secret nonce : Bytes) (id : ℕ) (pool : Db)
    → let after = (totp_setup env lib cipher key secret nonce id pool).1 in
      (after ≡ pool) ⊎ ((stored : Bytes) × (after ≡ update_user id (set_secret stored) pool))
unfolding totp_setup
totp_setup-writes env lib cipher key secret nonce id pool =
    elim (Result-cases (fetch_user env select_totp_status id pool)) [
      | inr (e, missing) ↦ inl (rw (missing, totp_setup) refl)
      | inl (row, found) ↦ elim (Bool-cases row.totp_enabled) [
        | inl on ↦ inl (rw (found, on, totp_setup) refl)
        | inr off ↦
            elim (Result-cases (encrypt cipher nonce key (as_bytes (lib.to_encoded secret)))) [
              | inr (e, failed) ↦ inl (rw (found, off, failed, totp_setup) refl)
              | inl (stored, sealed) ↦ elim (Option-cases (env.fault store_totp)) [
                | inr (e, down) ↦ inl (rw (found, off, sealed, down, totp_setup) refl)
                | inl up ↦ inr (stored, rw (found, off, sealed, up, totp_setup) refl)
              ]
            ]
      ]
    ]

module _ (env : Env) (request : Request) (pool : Db) where
  -- What a request with a safe method writes.
  SafeEffect : Call → Type 0
  SafeEffect call =
      ((serve env request call pool).1 ≡ pool)
      ⊎ ((id : ℕ) × (stored : Bytes) × (caller call ≡ some id)
          × (needs_user (endpoint_of call) ≡ true)
          × (needs_admin (endpoint_of call) ≡ true)
          × ((serve env request call pool).1 ≡ update_user id (set_secret stored) pool))

  safe_call : (call : Call) → is_safe (method_of (endpoint_of call)) ≡ true → SafeEffect call
  unfolding text_eq serve manage SafeEffect
  safe_call (manages user (sets_up lib cipher key secret nonce)) safe =
      elim (totp_setup-writes env lib cipher key secret nonce user pool) [
        | inl same ↦ inl same
        | inr (stored, set) ↦ inr (user, stored, refl, refl, refl, set)
      ]
  safe_call (manages user TotpCall.asks) safe = inl refl
  safe_call (posts_message config form) safe = cc
  safe_call (marks_message user message) safe = cc
  safe_call (inserts user article) safe = cc
  safe_call (edits user article) safe = cc
  safe_call (publishes user article) safe = cc
  safe_call (deletes user article) safe = cc
  safe_call (invites user base_url new) safe = cc
  safe_call (accepts params) safe = cc
  safe_call (manages user (confirms lib cipher key code)) safe = cc
  safe_call (manages user (disables password)) safe = cc
  safe_call (changes_password user body) safe = cc
  safe_call (sets_role user role) safe = cc
  safe_call (resets user) safe = cc

safe_step :
    (app : AppData) (env : Env) (input : Inputs) (e : Endpoint) (pool : Db) (step : Step)
    → step_of app env input e pool ≡ some step
    → is_safe (method_of e) ≡ true
    → step ≡ checks env
unfolding text_eq
safe_step app env input e pool step is safe = ground arith

is_safe_of :
    (request : Request) {Token : Type 0}
    → (is_safe request.method ≡ true) ⊎ (¬ Token)
    → (is_safe request.method ≡ false → Token)
    → is_safe request.method ≡ true
is_safe_of request (inl safe) token = safe
is_safe_of request (inr bare) token = elim (Bool-cases (is_safe request.method)) [
  | inl safe ↦ safe
  | inr unsafe ↦ absurd (bare (token unsafe))
]

module _ (S : SessionLib) (lawful : IsLawful S) (jwt : JwtLib) (app : AppData) (env : Env)
    (request : Request) (input : Inputs) (w : World S) where
  -- The session is as it was, but for its identifier, and so are the tables, but for the secret of
  -- the admin whose session it is.
  abbrev pub HasLittle : World S → Type 0
  HasLittle w' =
      ((w'.session ≡ w.session) ⊎ (w'.session ≡ S.renew w.session))
      × ((w'.pool ≡ w.pool)
          ⊎ ((id : ℕ) × (stored : Bytes) × AdminOf S w.session id
              × (w'.pool ≡ update_user id (set_secret stored) w.pool)))

  safe_changes :
      (e : Endpoint) (u : Option ℕ) (w' : World S)
      → Runs S env request w.session e u
      → is_safe (method_of e) ≡ true
      → Changed S jwt app env request input e u w w'
      → HasLittle w'
  unfolding after SafeEffect
  safe_changes e u w' runs safe kept = (inl refl, inl refl)
  safe_changes e u w' runs safe (wrote call is same) =
      let safe' : is_safe (method_of (endpoint_of call)) ≡ true =
        ap (λ x. is_safe (method_of x)) is ∙ safe in
      (
        inl refl,
        elim (safe_call env request w.pool call safe') [
          | inl untouched ↦ inl untouched
          | inr (id, stored, calls, needs, admins, set) ↦
              let (user, given, there) = runs.user (ap needs_user (sym is) ∙ needs) in
              let one : user ≡ id = ground (arith, given, same id calls) in
              inr (id, stored, (rw one at there, runs.role (ap needs_admin (sym is) ∙ admins)), set)
        ],
      )
  safe_changes e u w' runs safe (stepped step is) =
      let asked = safe_step app env input e w.pool step is safe in
      (
        elim (check_auth_state S lawful env w.session) [
          | inl same ↦ inl (ap (λ x. after S x w.session) asked ∙ same)
          | inr renewed ↦ inr (ap (λ x. after S x w.session) asked ∙ renewed)
        ],
        inl refl,
      )

  -- A request with a safe method, and one without the token in its cookie and its header, leaves the
  -- session as it was or gives it a new identifier, and leaves the tables as they were or, for a
  -- session of an admin, stores a new secret for the second factor of that admin.
  pub forged-HasLittle :
      (add_cookie : Text → Response → Result Response Anyhow)
      → (is_safe request.method ≡ true) ⊎ (¬ HasToken env request)
      → HasLittle (respond_to S jwt app env request input add_cookie w).1
  forged-HasLittle add_cookie forged =
      elim (respond_to-Changed S jwt app env request input add_cookie w) [
        | inl same ↦ subst HasLittle (sym same) (inl refl, inl refl)
        | inr (e, u, routed, runs, changed) ↦
            safe_changes e u _ runs
              (ap is_safe (sym runs.method) ∙ is_safe_of request forged runs.token) changed
      ]
