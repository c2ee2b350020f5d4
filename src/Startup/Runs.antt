-- ===== src/Startup/Runs.antt =====
-- Which handler of src/startup.rs a request runs, and what its middlewares have seen before.
use portfolio_server.Startup.Token.{HasToken, protected-state}
use portfolio_server.Startup.Guarded.{needs_user, needs_admin}
use portfolio_server.Errors.Sql.{Anyhow}
use portfolio_server.Http.{Request, Response}
use portfolio_server.Env.{Env}
use portfolio_server.Startup.{
  Route, Endpoint, Scope, routes, top, to_root, to_health_check, Handlers, to_check_auth, v1,
  handle, to_get_articles, is_taken, to_chat_token, to_get_all_users, fits, to_get_messages,
  to_totp_setup, to_totp_status, to_set_user_role, to_reset_password, to_patch_message,
  to_publish_article, to_edit_article, to_delete_article, chat_token, change_password, dispatch,
  run_routes, endpoint_for, routed,
}
use portfolio_server.Types.User.{admin}
use portfolio_server.Prelude.{
  text_eq, Bool, List, Text, all, find?, text, Option, Result, ℕ, ◌≡◌, true, false, some, refl,
  arith, ◌⊎◌, ok, inl, not, inr, Option-cases, none, ◌&&◌, ap, sym, text_eq_iff, ◌∙◌, found-holds,
  found-all, map_option,
}
use portfolio_server.Session.Typed.{SessionLib, get_user_id, get_user_role}
use portfolio_server.Auth.Guards.{admin_scope-runs, reject_anonymous_users-runs}
use portfolio_server.Auth.Middleware.{is_safe, reject_anonymous_users, admin_scope}

-- The method of the requests that a handler is routed for.
abbrev pub method_of : Endpoint → Text
method_of to_root = text "GET"
method_of to_health_check = text "GET"
method_of to_check_auth = text "GET"
method_of to_get_articles = text "GET"
method_of to_chat_token = text "GET"
method_of to_get_all_users = text "GET"
method_of to_get_messages = text "GET"
method_of to_totp_setup = text "GET"
method_of to_totp_status = text "GET"
method_of to_set_user_role = text "PATCH"
method_of to_reset_password = text "PATCH"
method_of to_patch_message = text "PATCH"
method_of to_publish_article = text "PATCH"
method_of to_edit_article = text "PATCH"
method_of to_delete_article = text "DELETE"
method_of _ = text "POST"

-- What is known when a handler begins.
pub record Runs (S : SessionLib) (env : Env) (request : Request) (s : S.State) (e : Endpoint)
    (u : Option ℕ) : Type 0 where
  pub method : request.method ≡ method_of e
  pub token : is_safe request.method ≡ false → HasToken env request
  pub user : needs_user e ≡ true → (id : ℕ) × (u ≡ some id) × (get_user_id S s ≡ ok (some id))
  pub role : needs_admin e ≡ true → get_user_role S s ≡ ok (some admin)

abbrev fits_method : Route → Bool
fits_method route = text_eq route.method (method_of route.endpoint)

routed_by_method : (scope : Scope) → all fits_method (routes scope) ≡ true
unfolding text_eq
routed_by_method top = refl
routed_by_method v1 = refl
routed_by_method chat_token = refl
routed_by_method change_password = refl
routed_by_method Scope.admin = refl

module _ (S : SessionLib) (add_cookie : Text → Response → Result Response Anyhow) {W : Type 0}
    (session : W → S.State) (env : Env) (request : Request) (w : W) where
  module _ (h : Handlers W) where
    -- No handler ran, or one did on the state that the request found.
    abbrev pub Ran : Scope → List Text → W → Type 0
    Ran scope path w' =
        (w' ≡ w)
        ⊎ ((e : Endpoint) × (u : Option ℕ) × (given : List Text) × (routed request.method
                (scope, path)
              ≡ some e)
            × Runs S env request (session w) e u
            × (w' ≡ (h e u given w).1))

    handle-cases :
        (path : List Text) (found : Option Route) (u : Option ℕ)
        → ((handle env h path found u w).1 ≡ w)
          ⊎ ((route : Route) × (given : List Text) × (found ≡ some route)
              × ((handle env h path found u w).1 ≡ (h route.endpoint u given w).1))
    handle-cases path none u = inl refl
    handle-cases path (some route) u = elim (Option-cases (fits route.path path)) [
      | inl other ↦ inl (rw (other, handle) refl)
      | inr (given, e) ↦ inr (route, given, refl, rw (e, handle) refl)
    ]

    -- In a scope whose routes have a property.
    scope-Ran :
        (scope : Scope) (q : Route → Bool) (path : List Text) (u : Option ℕ)
        → all q (routes scope) ≡ true
        → ((route : Route)
            → request.method ≡ route.method
            → request.method ≡ method_of route.endpoint
            → q route ≡ true
            → Runs S env request (session w) route.endpoint u)
        → Ran scope path
            (handle env h path (find? (is_taken request.method path) (routes scope)) u w).1
    scope-Ran scope q path u good runs =
        let p = is_taken request.method path in
        elim (handle-cases path (find? p (routes scope)) u) [
          | inl same ↦ inl same
          | inr (route, given, found, ran) ↦
              let taken = found-holds p (routes scope) route found in
              let method : text_eq route.method request.method ≡ true = ground (arith, taken) in
              let own : request.method ≡ route.method =
                sym ((text_eq_iff route.method request.method).0 method) in
              let fit =
                found-all p fits_method (routes scope) route (routed_by_method scope) found in
              inr (
                route.endpoint,
                u,
                given,
                ap (map_option (λ r. r.endpoint)) found,
                runs route own (own ∙ (text_eq_iff route.method (method_of route.endpoint)).0 fit)
                    (found-all p q (routes scope) route good found),
                ran,
              )
        ]

    open_scope :
        (path : List Text) (token : is_safe request.method ≡ false → HasToken env request)
        → Ran v1 path
            (handle env h path (find? (is_taken request.method path) (routes v1)) none w).1
    open_scope path token =
        scope-Ran v1 (λ route. not (needs_user route.endpoint) && not (needs_admin route.endpoint))
          path none refl
          (λ route own method q. record {
            method = method;
            token = token;
            user = λ needs. ground (arith, q);
            role = λ needs. ground (arith, q);
          })

    user_scope :
        (scope : Scope) (path : List Text) (id : ℕ)
        → (is_safe request.method ≡ false → HasToken env request)
        → get_user_id S (session w) ≡ ok (some id)
        → all (λ route. not (needs_admin route.endpoint)) (routes scope) ≡ true
        → Ran scope path
            (handle env h path (find? (is_taken request.method path) (routes scope)) (some id) w).1
    user_scope scope path id token there ordinary =
        scope-Ran scope (λ route. not (needs_admin route.endpoint)) path (some id) ordinary
          (λ route own method q. record {
            method = method;
            token = token;
            user = λ needs. (id, refl, there);
            role = λ needs. ground (arith, q);
          })

    admin_routes-Ran :
        (path : List Text)
        → (is_safe request.method ≡ false → HasToken env request)
        → Ran Scope.admin path
            (admin_scope S session
              (λ id.
                handle env h path
                  (find? (is_taken request.method path) (routes Scope.admin))
                  (some id))
              w).1
    admin_routes-Ran path token =
        let inner = λ (id : ℕ).
          handle env h path (find? (is_taken request.method path) (routes Scope.admin)) (some id) in
        elim (admin_scope-runs S session inner w) [
          | inr (e, refused, _) ↦ inl (ap (λ out. out.1) refused)
          | inl (id, there, is, ran) ↦ rw ran (
              scope-Ran Scope.admin (λ route. true) path (some id) refl
                (λ route own method q. record {
                  method = method;
                  token = token;
                  user = λ needs. (id, refl, there);
                  role = λ needs. is;
                }))
        ]

    user_routes-Ran :
        (scope : Scope) (path : List Text)
        → (is_safe request.method ≡ false → HasToken env request)
        → all (λ route. not (needs_admin route.endpoint)) (routes scope) ≡ true
        → Ran scope path
            (reject_anonymous_users S session
              (λ id.
                handle env h path (find? (is_taken request.method path) (routes scope)) (some id))
              w).1
    user_routes-Ran scope path token ordinary =
        let inner = λ (id : ℕ).
          handle env h path (find? (is_taken request.method path) (routes scope)) (some id) in
        elim (reject_anonymous_users-runs S session inner w) [
          | inr (e, refused, _) ↦ inl (ap (λ out. out.1) refused)
          | inl (id, there, ran) ↦ rw ran (user_scope scope path id token there ordinary)
        ]

    dispatch-Ran :
        (to : Scope × List Text)
        → Ran to.0 to.1 (dispatch S add_cookie session env request h to w).1
    unfolding text_eq
    dispatch-Ran (top, path) =
        scope-Ran top
          (λ route.
            is_safe route.method
            && not (needs_user route.endpoint)
            && not (needs_admin route.endpoint))
          path none refl
          (λ route own method q. record {
            method = method;
            token = λ unsafe. ground (arith, q, ap is_safe own);
            user = λ needs. ground (arith, q);
            role = λ needs. ground (arith, q);
          })
    dispatch-Ran (v1, path) =
        elim (protected-state add_cookie env request w
          (handle env h path (find? (is_taken request.method path) (routes v1)) none)) [
            | inl same ↦ inl same
            | inr (token, ran) ↦ rw ran (open_scope path token)
          ]
    dispatch-Ran (chat_token, path) = elim (protected-state add_cookie env request w _) [
      | inl same ↦ inl same
      | inr (token, ran) ↦ rw ran (user_routes-Ran chat_token path token refl)
    ]
    dispatch-Ran (change_password, path) = elim (protected-state add_cookie env request w _) [
      | inl same ↦ inl same
      | inr (token, ran) ↦ rw ran (user_routes-Ran change_password path token refl)
    ]
    dispatch-Ran (Scope.admin, path) = elim (protected-state add_cookie env request w _) [
      | inl same ↦ inl same
      | inr (token, ran) ↦ rw ran (admin_routes-Ran path token)
    ]

-- A request leaves the state as it was, or it runs the handler of its route on it, with the route's
-- method; where the method is not a safe one, the request has the token in its cookie and its header;
-- a handler that needs a user gets the one of the session; and one of the administration runs only
-- where the session has the role of an admin.
pub run_routes-Ran :
    (S : SessionLib) (add_cookie : Text → Response → Result Response Anyhow) {W : Type 0}
    (session : W → S.State) (env : Env) (request : Request) (w : W) (h : Handlers W)
    → let w' = (run_routes S add_cookie session env request h w).1 in
      (w' ≡ w)
      ⊎ ((e : Endpoint) × (u : Option ℕ) × (given : List Text) × (endpoint_for request ≡ some e)
          × Runs S env request (session w) e u
          × (w' ≡ (h e u given w).1))
unfolding run_routes endpoint_for
run_routes-Ran S add_cookie session env request w h =
    dispatch-Ran S add_cookie session env request w h _
