-- ===== src/Server/Permitted.antt =====
-- Who may write to the tables through the routes of src/startup.rs, and which requests do.
use portfolio_server.Auth.ChangePassword.{ChangePasswordBody}
use portfolio_server.Users.Accept.{AcceptInvitationParams}
use portfolio_server.Errors.Sql.{Anyhow}
use portfolio_server.Contact.Form.{MessageForm}
use portfolio_server.Auth.Middleware.{is_safe}
use portfolio_server.Startup.Guarded.{needs_admin, needs_user}
use portfolio_server.Contact.Post.{MessageRateLimitSettings}
use portfolio_server.Db.{Db}
use portfolio_server.Http.{Request, Response}
use portfolio_server.Users.ChatToken.{JwtLib}
use portfolio_server.Env.{Env}
use portfolio_server.Prelude.{
  ℕ, inl, inr, some, ok, refl, ap, sym, subst, text_eq, ◌≡◌, Text, ◌⊎◌, Option, arith, ◌∙◌, Result,
  true, false,
}
use portfolio_server.Types.User.{admin}
use portfolio_server.Session.Typed.{SessionLib, get_user_id, get_user_role}
use portfolio_server.Startup.{Endpoint, to_totp_setup, to_totp_status, endpoint_for}
use portfolio_server.Startup.Token.{HasToken}
use portfolio_server.Startup.Runs.{Runs, method_of, run_routes-Ran}
use portfolio_server.Server.{AppData, Inputs, World, endpoints, respond_to}
use portfolio_server.Server.Changes.{
  Changed, kept, wrote, stepped, endpoint_of, caller, endpoints-Changed,
}
use portfolio_server.System.{
  Call, serve, posts_message, marks_message, inserts, edits, publishes, deletes, invites, accepts,
  manages, changes_password, sets_role, resets,
}
use portfolio_server.Users.Totp.Machine.{TotpCall, sets_up, confirms, disables}

-- The tables after a request, by what is known of a user whose account it is, and of an admin.
pub data Permitted (Owns Admins : ℕ → Type 0) (env : Env) (request : Request) (before : Db)
    : Db → Type 0 where
  unchanged : Permitted Owns Admins env request before before
  visits :
      (config : MessageRateLimitSettings) (form : MessageForm)
      → HasToken env request
      → Permitted Owns Admins env request before
          (serve env request (posts_message config form) before).1
  joins :
      (params : AcceptInvitationParams)
      → HasToken env request
      → Permitted Owns Admins env request before (serve env request (accepts params) before).1
  keeps_account :
      (id : ℕ) (body : ChangePasswordBody)
      → Owns id
      → HasToken env request
      → Permitted Owns Admins env request before
          (serve env request (changes_password id body) before).1
  administers :
      (id : ℕ) (call : Call)
      → Admins id
      → needs_admin (endpoint_of call) ≡ true
      → ((other : ℕ) → caller call ≡ some other → other ≡ id)
      → (endpoint_of call ≡ to_totp_setup)
        ⊎ ((endpoint_of call ≡ to_totp_status) ⊎ HasToken env request)
      → Permitted Owns Admins env request before (serve env request call before).1

-- The user of a session, and one who has the role of an admin in it.
abbrev pub UserOf : (S : SessionLib) → S.State → ℕ → Type 0
UserOf S s id = get_user_id S s ≡ ok (some id)

abbrev pub AdminOf : (S : SessionLib) → S.State → ℕ → Type 0
AdminOf S s id = UserOf S s id × (get_user_role S s ≡ ok (some admin))

pub Permitted-map :
    {P Q P' Q' : ℕ → Type 0} (env : Env) (request : Request) (before after : Db)
    → ((id : ℕ) → P id → P' id)
    → ((id : ℕ) → Q id → Q' id)
    → Permitted P Q env request before after
    → Permitted P' Q' env request before after
Permitted-map env request before after f g unchanged = unchanged
Permitted-map env request before after f g (visits config form token) = visits config form token
Permitted-map env request before after f g (joins params token) = joins params token
Permitted-map env request before after f g (keeps_account id body owns token) =
    keeps_account id body (f id owns) token
Permitted-map env request before after f g (administers id call is needs same token) =
    administers id call (g id is) needs same token

-- The methods of the requests that write.
unsafe_but :
    (call : Call)
    → (endpoint_of call ≡ to_totp_setup)
      ⊎ ((endpoint_of call ≡ to_totp_status) ⊎ (is_safe (method_of (endpoint_of call)) ≡ false))
unfolding text_eq
unsafe_but (posts_message config form) = inr (inr refl)
unsafe_but (marks_message user message) = inr (inr refl)
unsafe_but (inserts user article) = inr (inr refl)
unsafe_but (edits user article) = inr (inr refl)
unsafe_but (publishes user article) = inr (inr refl)
unsafe_but (deletes user article) = inr (inr refl)
unsafe_but (invites user base_url new) = inr (inr refl)
unsafe_but (accepts params) = inr (inr refl)
unsafe_but (manages user (sets_up lib cipher key secret nonce)) = inl refl
unsafe_but (manages user (confirms lib cipher key code)) = inr (inr refl)
unsafe_but (manages user (disables password)) = inr (inr refl)
unsafe_but (manages user TotpCall.asks) = inr (inl refl)
unsafe_but (changes_password user body) = inr (inr refl)
unsafe_but (sets_role user role) = inr (inr refl)
unsafe_but (resets user) = inr (inr refl)

module _ (S : SessionLib) (env : Env) (request : Request) (s : S.State) where
  guarded_token :
      (call : Call) (u : Option ℕ)
      → Runs S env request s (endpoint_of call) u
      → (endpoint_of call ≡ to_totp_setup)
        ⊎ ((endpoint_of call ≡ to_totp_status) ⊎ HasToken env request)
  guarded_token call u runs = elim (unsafe_but call) [
    | inl setup ↦ inl setup
    | inr (inl status) ↦ inr (inl status)
    | inr (inr unsafe) ↦ inr (inr (runs.token (ap is_safe runs.method ∙ unsafe)))
  ]

  token_of :
      (call : Call) (u : Option ℕ)
      → Runs S env request s (endpoint_of call) u
      → is_safe (method_of (endpoint_of call)) ≡ false
      → HasToken env request
  token_of call u runs unsafe = runs.token (ap is_safe runs.method ∙ unsafe)

  admin_call :
      (call : Call) (u : Option ℕ) (before : Db)
      → Runs S env request s (endpoint_of call) u
      → ((id : ℕ) → caller call ≡ some id → u ≡ some id)
      → needs_admin (endpoint_of call) ≡ true
      → needs_user (endpoint_of call) ≡ true
      → Permitted (UserOf S s) (AdminOf S s) env request before (serve env request call before).1
  admin_call call u before runs same needs and_user =
      let (id, is, there) = runs.user and_user in
      administers id call (there, runs.role needs) needs
        (λ other calls. ground (arith, is, same other calls)) (guarded_token call u runs)

  pub call-Permitted :
      (call : Call) (u : Option ℕ) (before : Db)
      → Runs S env request s (endpoint_of call) u
      → ((id : ℕ) → caller call ≡ some id → u ≡ some id)
      → Permitted (UserOf S s) (AdminOf S s) env request before (serve env request call before).1
  unfolding text_eq
  call-Permitted (posts_message config form) u before runs same =
      visits config form (token_of (posts_message config form) u runs refl)
  call-Permitted (accepts params) u before runs same =
      joins params (token_of (accepts params) u runs refl)
  call-Permitted (changes_password user body) u before runs same =
      let (id, is, there) = runs.user refl in
      let one : id ≡ user = ground (arith, is, same user refl) in
      keeps_account user body (rw one at there) (token_of (changes_password user body) u runs refl)
  call-Permitted (marks_message user message) u before runs same =
      admin_call (marks_message user message) u before runs same refl refl
  call-Permitted (inserts user article) u before runs same =
      admin_call (inserts user article) u before runs same refl refl
  call-Permitted (edits user article) u before runs same =
      admin_call (edits user article) u before runs same refl refl
  call-Permitted (publishes user article) u before runs same =
      admin_call (publishes user article) u before runs same refl refl
  call-Permitted (deletes user article) u before runs same =
      admin_call (deletes user article) u before runs same refl refl
  call-Permitted (invites user base_url new) u before runs same =
      admin_call (invites user base_url new) u before runs same refl refl
  call-Permitted (manages user (sets_up lib cipher key secret nonce)) u before runs same =
      admin_call (manages user (sets_up lib cipher key secret nonce)) u before runs same refl refl
  call-Permitted (manages user (confirms lib cipher key code)) u before runs same =
      admin_call (manages user (confirms lib cipher key code)) u before runs same refl refl
  call-Permitted (manages user (disables password)) u before runs same =
      admin_call (manages user (disables password)) u before runs same refl refl
  call-Permitted (manages user TotpCall.asks) u before runs same =
      admin_call (manages user TotpCall.asks) u before runs same refl refl
  call-Permitted (sets_role user role) u before runs same =
      admin_call (sets_role user role) u before runs same refl refl
  call-Permitted (resets user) u before runs same =
      admin_call (resets user) u before runs same refl refl

module _ (S : SessionLib) (jwt : JwtLib) (app : AppData) (env : Env) (request : Request)
    (input : Inputs) (add_cookie : Text → Response → Result Response Anyhow) (w : World S) where
  -- The state after a request, and the handler that made it.
  pub respond_to-Changed :
      let w' = (respond_to S jwt app env request input add_cookie w).1 in
      (w' ≡ w)
      ⊎ ((e : Endpoint) × (u : Option ℕ) × (endpoint_for request ≡ some e)
          × Runs S env request w.session e u
          × Changed S jwt app env request input e u w w')
  unfolding respond_to
  respond_to-Changed =
      elim (run_routes-Ran S add_cookie (λ v. v.session) env request w
        (endpoints S jwt app env request input)) [
          | inl same ↦ inl same
          | inr (e, u, given, routed, runs, ran) ↦ inr (
            e,
            u,
            routed,
            runs,
            subst (Changed S jwt app env request input e u w) (sym ran)
                (endpoints-Changed S jwt app env request input e u given w),
          )
        ]

  Changed-Permitted :
      (e : Endpoint) (u : Option ℕ) (w' : World S)
      → Runs S env request w.session e u
      → Changed S jwt app env request input e u w w'
      → Permitted (UserOf S w.session) (AdminOf S w.session) env request w.pool w'.pool
  Changed-Permitted e u w' runs kept = unchanged
  Changed-Permitted e u w' runs (wrote call is same) =
      call-Permitted S env request w.session call u w.pool
        (subst (λ x. Runs S env request w.session x u) (sym is) runs) same
  Changed-Permitted e u w' runs (stepped step is) = unchanged

  -- Whatever a request is, the tables are as they were after it, or one of four kinds of request was
  -- served: a contact message; an accepted invitation; the change of the password of the user of the
  -- session; or a call of the administration, for the user of the session, which has the role of an
  -- admin. In all of them the request has the token, but for the calls that set up the second factor
  -- of that admin and that ask for its status.
  pub respond_to-Permitted :
      Permitted
        (UserOf S w.session)
        (AdminOf S w.session)
        env
        request
        w.pool
        (respond_to S jwt app env request input add_cookie w).1.pool
  respond_to-Permitted = elim respond_to-Changed [
    | inl same ↦
        subst (λ v. Permitted (UserOf S w.session) (AdminOf S w.session) env request w.pool v.pool)
          (sym same) unchanged
    | inr (e, u, routed, runs, changed) ↦ Changed-Permitted e u _ runs changed
  ]
