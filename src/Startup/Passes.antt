-- ===== src/Startup/Passes.antt =====
-- The requests that src/startup.rs hands to a handler which needs no user.
use portfolio_server.Startup.Token.{has_token, protected-runs}
use portfolio_server.Errors.Sql.{Anyhow}
use portfolio_server.Prelude.{
  Text, Result, ◌≡◌, true, List, false, some, all, Option, none, ℕ, ◌∙◌, map_option, Option-cases,
  inl, find?, found-holds, arith, inr, ap, found-all, is_some, refl,
}
use portfolio_server.Http.{Request, Response}
use portfolio_server.Startup.{
  run_routes, endpoint_for, Handlers, Endpoint, Scope, routed, routes, dispatch, Route, handle,
  is_taken, top, v1, fits, chat_token, change_password,
}
use portfolio_server.Session.Typed.{SessionLib}
use portfolio_server.Env.{Env}
use portfolio_server.Startup.Guarded.{needs_user}

module _ (S : SessionLib) (add_cookie : Text → Response → Result Response Anyhow) {W : Type 0}
    (session : W → S.State) (env : Env) (request : Request) (w : W)
    (matches : has_token env request ≡ true) where
  module _ (h : Handlers W) (e : Endpoint) where
    handle-runs :
        (path : List Text) (found : Option Route) (u : Option ℕ)
        → ((route : Route) → found ≡ some route → is_taken request.method path route ≡ true)
        → map_option (λ route. route.endpoint) found ≡ some e
        → (given : List Text) × ((handle env h path found u w).1 ≡ (h e u given w).1)
    handle-runs path none u taken there = ground arith
    handle-runs path (some route) u taken there = elim (Option-cases (fits route.path path)) [
      | inl other ↦ absurd (ground (arith, taken route refl, ap is_some other))
      | inr (given, e') ↦
          let same : route.endpoint ≡ e = ground arith in
          (given, rw (e', handle) (ap (λ x. (h x u given w).1) same))
    ]

    scope-runs :
        (scope : Scope) (path : List Text) (u : Option ℕ)
        → routed request.method (scope, path) ≡ some e
        → (given : List Text) × ((handle env h path
              (find? (is_taken request.method path) (routes scope))
              u
              w).1
            ≡ (h e u given w).1)
    scope-runs scope path u there =
        let p = is_taken request.method path in
        handle-runs path (find? p (routes scope)) u (found-holds p (routes scope)) there

    -- The scopes that need a user have no other routes.
    not_there :
        (scope : Scope) (path : List Text)
        → all (λ route. needs_user route.endpoint) (routes scope) ≡ true
        → needs_user e ≡ false
        → ¬ (routed request.method (scope, path) ≡ some e)
    not_there scope path only free there =
        let p = is_taken request.method path in
        elim (Option-cases (find? p (routes scope))) [
          | inl nothing ↦ ground arith
          | inr (route, found) ↦
              let needs =
                found-all p (λ r. needs_user r.endpoint) (routes scope) route only found in
              let same : route.endpoint ≡ e = ground arith in
              ground (arith, needs, ap needs_user same)
        ]

    dispatch-runs :
        needs_user e ≡ false
        → (to : Scope × List Text) → routed request.method to ≡ some e
        → (given : List Text) × ((dispatch S add_cookie session env request h to w).1
            ≡ (h e none given w).1)
    dispatch-runs free (top, path) there = scope-runs top path none there
    dispatch-runs free (v1, path) there =
        let (given, ran) = scope-runs v1 path none there in
        (given, protected-runs add_cookie env request w matches _ ∙ ran)
    dispatch-runs free (chat_token, path) there = absurd (not_there chat_token path refl free there)
    dispatch-runs free (change_password, path) there =
        absurd (not_there change_password path refl free there)
    dispatch-runs free (Scope.admin, path) there =
        absurd (not_there Scope.admin path refl free there)

-- A request that a route leads to a handler which needs no user, and that has the token, runs it.
pub run_routes-runs :
    (S : SessionLib) (add_cookie : Text → Response → Result Response Anyhow) {W : Type 0}
    (session : W → S.State) (env : Env) (request : Request) (w : W) (h : Handlers W) (e : Endpoint)
    → has_token env request ≡ true
    → needs_user e ≡ false
    → endpoint_for request ≡ some e
    → (given : List Text) × ((run_routes S add_cookie session env request h w).1
        ≡ (h e none given w).1)
unfolding run_routes endpoint_for
run_routes-runs S add_cookie session env request w h e matches free there =
    dispatch-runs S add_cookie session env request w matches h e free _ there
