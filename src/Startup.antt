-- ===== src/Startup.antt =====
-- src/startup.rs, `run`: the routes, and the middlewares that stand before them. Of actix-web it uses
-- scopes, which take every path below their prefix, routes with a guard on the method, and the answer
-- 404 where no route of the scope fits.
pub mod Guarded
pub mod Token
pub mod Runs
pub mod Passes
pub mod Build
pub mod Built
use portfolio_server.Errors.Web.{WebError, from_response, panicked, status}
use portfolio_server.Env.{Env}
use portfolio_server.Errors.Sql.{Anyhow}
use portfolio_server.Session.Typed.{SessionLib}
use portfolio_server.Prelude.{
  Option, Text, ℕ, List, text, ◌∷◌, ok, Result, [], Bool, text_eq, any_or, if◌then◌else◌, some,
  ◌&&◌, none, ◌==◌, find?, is_some, is_empty, map_option, err,
}
use portfolio_server.Http.{Request, Response, finish}
use portfolio_server.Auth.Middleware.{
  Next, admin_scope, reject_anonymous_users, cross_site_request_forgery_protection,
}

-- The handlers that routes lead to.
pub data Endpoint : Type 0 where
  to_root to_health_check : Endpoint
  to_login to_verify_totp to_logout to_check_auth : Endpoint
  to_post_message to_get_articles to_accept_invitation : Endpoint
  to_chat_token to_update_user_password : Endpoint
  to_create_user to_get_all_users to_set_user_role to_reset_password : Endpoint
  to_get_messages to_patch_message : Endpoint
  to_insert_article to_publish_article to_delete_article to_edit_article : Endpoint
  to_totp_setup to_totp_confirm to_totp_disable to_totp_status : Endpoint

-- A part of a path: a fixed one, or `{user_id}`.
pub data Segment : Type 0 where
  fixed : Text → Segment
  user_id : Segment

pub record Route : Type 0 where
  pub method : Text
  pub path : List Segment
  pub endpoint : Endpoint

-- A route to a path of one and of two fixed parts, and to one of a user.
abbrev one : Text → Text → Endpoint → Route
one method a endpoint = record { method = method; path = fixed a ∷ []; endpoint = endpoint }

abbrev two : Text → Text → Text → Endpoint → Route
two method a b endpoint = record {
  method = method;
  path = fixed a ∷ fixed b ∷ [];
  endpoint = endpoint;
}

abbrev of_user : Text → Text → Endpoint → Route
of_user method b endpoint = record {
  method = method;
  path = fixed (text "users") ∷ user_id ∷ fixed b ∷ [];
  endpoint = endpoint;
}

abbrev pub get_method : Text
get_method = text "GET"

abbrev pub post_method : Text
post_method = text "POST"

abbrev pub patch_method : Text
patch_method = text "PATCH"

abbrev pub delete_method : Text
delete_method = text "DELETE"

-- The routes of the application, and of each scope without its prefix.
abbrev pub top_routes : List Route
top_routes = one get_method [] to_root ∷ one get_method (text "health_check") to_health_check ∷ []

abbrev pub v1_routes : List Route
v1_routes =
    one post_method (text "login") to_login
    ∷ one post_method (text "verify_totp") to_verify_totp
    ∷ one post_method (text "logout") to_logout
    ∷ one get_method (text "check_auth") to_check_auth
    ∷ one post_method (text "contact") to_post_message
    ∷ one get_method (text "blog") to_get_articles
    ∷ one post_method (text "accept") to_accept_invitation
    ∷ []

abbrev pub chat_token_routes : List Route
chat_token_routes = record { method = get_method; path = []; endpoint = to_chat_token } ∷ []

abbrev pub change_password_routes : List Route
change_password_routes =
    record { method = post_method; path = []; endpoint = to_update_user_password } ∷ []

abbrev pub admin_routes : List Route
admin_routes =
    one post_method (text "create_user") to_create_user
    ∷ one get_method (text "users") to_get_all_users
    ∷ of_user patch_method (text "role") to_set_user_role
    ∷ of_user patch_method (text "reset_password") to_reset_password
    ∷ one get_method (text "messages") to_get_messages
    ∷ one patch_method (text "messages") to_patch_message
    ∷ two post_method (text "blog") (text "post") to_insert_article
    ∷ two patch_method (text "blog") (text "publish") to_publish_article
    ∷ two delete_method (text "blog") (text "delete") to_delete_article
    ∷ two patch_method (text "blog") (text "edit") to_edit_article
    ∷ two get_method (text "totp") (text "setup") to_totp_setup
    ∷ two post_method (text "totp") (text "confirm") to_totp_confirm
    ∷ two post_method (text "totp") (text "disable") to_totp_disable
    ∷ two get_method (text "totp") (text "status") to_totp_status
    ∷ []

-- The parts of a path, between its slashes; the first is what stands before the first slash.
abbrev onto_first : ℕ → List Text → List Text
onto_first c [] = (c ∷ []) ∷ []
onto_first c (s ∷ rest) = (c ∷ s) ∷ rest

unfoldable pub parts : Text → List Text
parts [] = [] ∷ []
parts (c ∷ s) = let rest = parts s in if c == b'/' then [] ∷ rest else onto_first c rest

-- What stands for `{user_id}`, where the path fits.
abbrev pub fits : List Segment → List Text → Option (List Text)
fits [] [] = some []
fits [] (p ∷ ps) = none
fits (s ∷ ss) [] = none
fits (fixed a ∷ ss) (p ∷ ps) = let rest = fits ss ps in if text_eq a p then rest else none
fits (user_id ∷ ss) (p ∷ ps) =
    let rest = fits ss ps in if is_empty p then none else map_option (λ more. p ∷ more) rest

abbrev pub is_taken : Text → List Text → Route → Bool
is_taken method path route = text_eq route.method method && is_some (fits route.path path)

pub data Scope : Type 0 where
  top v1 chat_token change_password admin : Scope

abbrev pub routes : Scope → List Route
routes top = top_routes
routes v1 = v1_routes
routes chat_token = chat_token_routes
routes change_password = change_password_routes
routes admin = admin_routes

-- The scope of a path below `/v1`, and the path without its prefix.
abbrev pub v1_scope : List Text → Scope × List Text
v1_scope [] = (v1, [])
v1_scope (a ∷ rest) =
    if text_eq a (text "chat_token")
    then (chat_token, rest)
    else if text_eq a (text "change_password")
    then (change_password, rest)
    else if text_eq a (text "admin")
    then (admin, rest)
    else (v1, a ∷ rest)

unfoldable pub scope_of : List Text → Scope × List Text
scope_of [] = (top, [])
scope_of (before ∷ []) = (top, [])
scope_of (before ∷ a ∷ rest) = if text_eq a (text "v1") then v1_scope rest else (top, a ∷ rest)

-- The handler of a request, where a route of its scope fits.
abbrev pub routed : Text → Scope × List Text → Option Endpoint
routed method (scope, path) =
    map_option (λ route. route.endpoint) (find? (is_taken method path) (routes scope))

unfoldable pub endpoint_for : Request → Option Endpoint
unfolding scope_of parts
endpoint_for request = routed request.method (scope_of (parts request.path))

-- What a request gives to a handler: the user, where the scope has put one in the extensions, and
-- the parts that stand for `{user_id}`.
abbrev pub Handlers : Type 0 → Type 0
Handlers W = Endpoint → Option ℕ → List Text → Next W

-- The response that actix makes of a handler's error, before a middleware sees it.
abbrev pub responded : Env → Result Response WebError → Result Response WebError
responded env (ok r) = ok r
responded env (err (from_response e r)) = ok r
responded env (err (panicked t)) = err (panicked t)
responded env (err e) =
    ok (record { status = status e; headers = (env.render e).0; body = (env.render e).1 })

abbrev pub handle : {W : Type 0} → Env → Handlers W → List Text → Option Route → Option ℕ → Next W
handle env handlers path none user w = (ok (finish 404), w)
handle env handlers path (some route) user w = elim (fits route.path path) [
  | none ↦ (ok (finish 404), w)
  | some given ↦ let (r, w') = handlers route.endpoint user given w in (responded env r, w')
]

module _ (S : SessionLib) (add_cookie : Text → Response → Result Response Anyhow) {W : Type 0}
    (session : W → S.State) where
  -- The middlewares of the scope, around what its routes lead to.
  abbrev pub behind : Env → Request → Scope → (Option ℕ → Next W) → Next W
  behind env request top inner = inner none
  behind env request v1 inner =
      cross_site_request_forgery_protection add_cookie env request (inner none)
  behind env request chat_token inner =
      cross_site_request_forgery_protection add_cookie env request
        (reject_anonymous_users S session (λ id. inner (some id)))
  behind env request change_password inner =
      cross_site_request_forgery_protection add_cookie env request
        (reject_anonymous_users S session (λ id. inner (some id)))
  behind env request admin inner =
      cross_site_request_forgery_protection add_cookie env request
        (admin_scope S session (λ id. inner (some id)))

  abbrev pub dispatch : Env → Request → Handlers W → Scope × List Text → Next W
  dispatch env request handlers (scope, path) =
      behind env request scope
        (handle env handlers path (find? (is_taken request.method path) (routes scope)))

  unfoldable pub run_routes : Env → Request → Handlers W → Next W
  unfolding cross_site_request_forgery_protection reject_anonymous_users admin_scope scope_of parts
  run_routes env request handlers = dispatch env request handlers (scope_of (parts request.path))
