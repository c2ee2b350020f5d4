-- ===== src/Startup/Guarded.antt =====
-- What the middlewares of src/startup.rs keep from the handlers.
use portfolio_server.Auth.Guards.{Answer-cases}
use portfolio_server.Auth.Middleware.{
  cross_site_request_forgery_protection, Next, reject_anonymous_users, admin_scope,
  reject_non_admin,
}
use portfolio_server.Env.{Env}
use portfolio_server.Errors.Sql.{Anyhow}
use portfolio_server.Http.{Response, Request}
use portfolio_server.Prelude.{
  Bool, false, ◌≡◌, true, List, Text, Option, all, ℕ, Result, find?, some, arith, Option-cases, ok,
  inl, inr, none, refl, ◌⊎◌, not, found-all, ap,
}
use portfolio_server.Session.Typed.{SessionLib, get_user_id, get_user_role}
use portfolio_server.Types.User.{admin, user, chat_user}
use portfolio_server.Startup.{
  Endpoint, Route, run_routes, Handlers, dispatch, handle, is_taken, routes, Scope, top, v1,
  chat_token, change_password, to_root, to_chat_token, to_update_user_password, to_health_check,
  to_login, to_verify_totp, to_logout, to_check_auth, to_post_message, fits, to_get_articles,
  to_accept_invitation, responded,
}

-- The handlers that only an admin may run, those that need a user, and the others.
abbrev pub needs_admin : Endpoint → Bool
needs_admin to_root = false
needs_admin to_health_check = false
needs_admin to_login = false
needs_admin to_verify_totp = false
needs_admin to_logout = false
needs_admin to_check_auth = false
needs_admin to_post_message = false
needs_admin to_get_articles = false
needs_admin to_accept_invitation = false
needs_admin to_chat_token = false
needs_admin to_update_user_password = false
needs_admin _ = true

abbrev pub needs_user : Endpoint → Bool
needs_user to_chat_token = true
needs_user to_update_user_password = true
needs_user e = needs_admin e

-- Two tables of handlers that differ at most at the endpoints with a property.
abbrev pub Agree : {W : Type 0} → (Endpoint → Bool) → Handlers W → Handlers W → Type 0
Agree special h h' =
    (e : Endpoint)
    → special e ≡ false
    → (u : Option ℕ) (given : List Text) (w : _) → h e u given w ≡ h' e u given w

module _ (S : SessionLib) (add_cookie : Text → Response → Result Response Anyhow) {W : Type 0}
    (session : W → S.State) (env : Env) (request : Request) (w : W) where
  protected-cong :
      (next next' : Next W)
      → next w ≡ next' w
      → cross_site_request_forgery_protection add_cookie env request next w
        ≡ cross_site_request_forgery_protection add_cookie env request next' w
  unfolding cross_site_request_forgery_protection
  protected-cong next next' same = rw same

  signed_in-cong :
      (next next' : ℕ → Next W)
      → ((id : ℕ) → get_user_id S (session w) ≡ ok (some id) → next id w ≡ next' id w)
      → reject_anonymous_users S session next w ≡ reject_anonymous_users S session next' w
  unfolding reject_anonymous_users
  signed_in-cong next next' same = elim (Answer-cases (get_user_id S (session w))) [
    | inl (e, wrong) ↦ rw (wrong, reject_anonymous_users) refl
    | inr (inl missing) ↦ rw (missing, reject_anonymous_users) refl
    | inr (inr (id, found)) ↦ rw (found, reject_anonymous_users) (same id found)
  ]

  admin-cong :
      (next next' : ℕ → Next W)
      → ((id : ℕ)
          → get_user_id S (session w) ≡ ok (some id)
          → get_user_role S (session w) ≡ ok (some admin)
          → next id w ≡ next' id w)
      → admin_scope S session next w ≡ admin_scope S session next' w
  unfolding admin_scope reject_non_admin
  admin-cong next next' same = elim (Answer-cases (get_user_role S (session w))) [
    | inl (e, wrong) ↦ rw (wrong, admin_scope, reject_non_admin) refl
    | inr (inl missing) ↦ rw (missing, admin_scope, reject_non_admin) refl
    | inr (inr (user, found)) ↦ rw (found, admin_scope, reject_non_admin) refl
    | inr (inr (chat_user, found)) ↦ rw (found, admin_scope, reject_non_admin) refl
    | inr (inr (admin, found)) ↦
        rw (found, admin_scope, reject_non_admin)
          (signed_in-cong next next' (λ id there. same id there found))
  ]

  module _ (special : Endpoint → Bool) (h h' : Handlers W) (agree : Agree special h h') where
    handle-agree :
        (path : List Text) (found : Option Route) (u : Option ℕ)
        → ((route : Route) → found ≡ some route → special route.endpoint ≡ false)
        → handle env h path found u w ≡ handle env h' path found u w
    handle-agree path none u plain = refl
    handle-agree path (some route) u plain = elim (Option-cases (fits route.path path)) [
      | inl other ↦ rw (other, handle) refl
      | inr (given, e) ↦
          rw (e, handle)
            (ap (λ out. (responded env out.0, out.1))
              (agree route.endpoint (plain route refl) u given w))
    ]

    -- A scope without special endpoints does not tell the tables of handlers apart.
    plain-agree :
        (scope : Scope) (path : List Text) (u : Option ℕ)
        → all (λ route. not (special route.endpoint)) (routes scope) ≡ true
        → handle env h path (find? (is_taken request.method path) (routes scope)) u w
          ≡ handle env h' path (find? (is_taken request.method path) (routes scope)) u w
    plain-agree scope path u plain =
        let found = find? (is_taken request.method path) (routes scope) in
        handle-agree path found u (λ route here.
          let ordinary =
            found-all (is_taken request.method path) (λ r. not (special r.endpoint)) (routes scope)
              route plain here in
          ground (arith, ordinary))

  module _ (h h' : Handlers W) where
    admin_only :
        ¬ (get_user_role S (session w) ≡ ok (some admin))
        → Agree needs_admin h h'
        → (to : Scope × List Text)
        → dispatch S add_cookie session env request h to w
          ≡ dispatch S add_cookie session env request h' to w
    admin_only not_admin agree (top, path) = plain-agree needs_admin h h' agree top path none refl
    admin_only not_admin agree (v1, path) =
        protected-cong _ _ (plain-agree needs_admin h h' agree v1 path none refl)
    admin_only not_admin agree (chat_token, path) = protected-cong _ _ (
        signed_in-cong _ _
          (λ id there. plain-agree needs_admin h h' agree chat_token path (some id) refl))
    admin_only not_admin agree (change_password, path) = protected-cong _ _ (
        signed_in-cong _ _
          (λ id there. plain-agree needs_admin h h' agree change_password path (some id) refl))
    admin_only not_admin agree (Scope.admin, path) =
        protected-cong _ _ (admin-cong _ _ (λ id there is. absurd (not_admin is)))

    users_only :
        ((id : ℕ) → ¬ (get_user_id S (session w) ≡ ok (some id)))
        → Agree needs_user h h'
        → (to : Scope × List Text)
        → dispatch S add_cookie session env request h to w
          ≡ dispatch S add_cookie session env request h' to w
    users_only anonymous agree (top, path) = plain-agree needs_user h h' agree top path none refl
    users_only anonymous agree (v1, path) =
        protected-cong _ _ (plain-agree needs_user h h' agree v1 path none refl)
    users_only anonymous agree (chat_token, path) =
        protected-cong _ _ (signed_in-cong _ _ (λ id there. absurd (anonymous id there)))
    users_only anonymous agree (change_password, path) =
        protected-cong _ _ (signed_in-cong _ _ (λ id there. absurd (anonymous id there)))
    users_only anonymous agree (Scope.admin, path) =
        protected-cong _ _ (admin-cong _ _ (λ id there is. absurd (anonymous id there)))

-- Whatever the path and the method of a request: if its session does not have the role of an admin,
-- no handler of the administration has a part in the answer or in what is written, and if its session
-- has no user, no handler that needs one has.
pub run-guarded :
    (S : SessionLib) (add_cookie : Text → Response → Result Response Anyhow) {W : Type 0}
    (session : W → S.State) (env : Env) (request : Request) (w : W) (h h' : Handlers W)
    → ((¬ (get_user_role S (session w) ≡ ok (some admin))) × Agree needs_admin h h')
      ⊎ (((id : ℕ) → ¬ (get_user_id S (session w) ≡ ok (some id))) × Agree needs_user h h')
    → run_routes S add_cookie session env request h w
      ≡ run_routes S add_cookie session env request h' w
unfolding run_routes
run-guarded S add_cookie session env request w h h' (inl (not_admin, agree)) =
    admin_only S add_cookie session env request w h h' not_admin agree _
run-guarded S add_cookie session env request w h h' (inr (anonymous, agree)) =
    users_only S add_cookie session env request w h h' anonymous agree _
