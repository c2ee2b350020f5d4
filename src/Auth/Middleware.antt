-- ===== src/Auth/Middleware.antt =====
-- src/authentication/middleware.rs: the three middlewares, and the order in which src/startup.rs
-- wraps the admin routes in two of them. The rest of the chain is the function `next`.
use portfolio_server.Prelude.{
  ℕ, Text, text, text_eq, is_empty, Bool, not, ◌&&◌, ◌||◌, false, Option, none, some, Result, ok,
  err, if◌then◌else◌, true,
}
use portfolio_server.Http.{Request, Response, get}
use portfolio_server.Errors.Sql.{Anyhow, msg}
use portfolio_server.Errors.Web.{WebError, e500, error_with, from_response, unauthorized}
use portfolio_server.Env.{Env}
use portfolio_server.Types.User.{UserRole, admin, user, chat_user}
use portfolio_server.Idempotency.Execute.{header_text}
use portfolio_server.Session.Typed.{SessionLib, get_user_id, get_user_role}

abbrev pub is_admin : UserRole → Bool
is_admin admin = true
is_admin user = false
is_admin chat_user = false

-- What comes behind a middleware: it reads and writes a state, the session's or more.
abbrev pub Next : Type 0 → Type 0
Next W = W → Result Response WebError × W

-- `UserId::from_request`, of the user in the request's extensions.
abbrev pub from_request : Option ℕ → Result ℕ WebError
from_request (some id) = ok id
from_request none = err (error_with 401 (msg (text "Not Authenticated")))

module _ (S : SessionLib) {W : Type 0} (session : W → S.State) where
  -- The user that it puts in the request's extensions is the argument of `next`.
  unfoldable pub reject_anonymous_users : (ℕ → Next W) → Next W
  unfolding get_user_id
  reject_anonymous_users next w = elim (get_user_id S (session w)) [
    | err e ↦ (err (e500 e), w)
    | ok none ↦ (err (from_response (msg (text "The user has not logged in")) unauthorized), w)
    | ok (some id) ↦ next id w
  ]

  abbrev not_admin : W → Result Response WebError × W
  not_admin w = (err (from_response (msg (text "The user is not an admin")) unauthorized), w)

  unfoldable pub reject_non_admin : Next W → Next W
  unfolding get_user_role
  reject_non_admin next w = elim (get_user_role S (session w)) [
    | err e ↦ (err (e500 e), w)
    | ok none ↦ not_admin w
    | ok (some role) ↦ elim role [ admin ↦ next w | user ↦ not_admin w | chat_user ↦ not_admin w ]
  ]

  -- The scope `/admin`: the middleware that is wrapped last runs first.
  unfoldable pub admin_scope : (ℕ → Next W) → Next W
  unfolding reject_non_admin reject_anonymous_users
  admin_scope handler w = reject_non_admin (reject_anonymous_users handler) w

abbrev pub xsrf_cookie_name : Text
xsrf_cookie_name = text "XSRF-TOKEN"

-- `X-XSRF-TOKEN`, in lower case as all header names.
abbrev pub xsrf_header_name : Text
xsrf_header_name = text "x-xsrf-token"

abbrev pub is_safe : Text → Bool
is_safe method =
    text_eq method (text "GET") || text_eq method (text "HEAD") || text_eq method (text "OPTIONS")

-- `match (cookie_val, header_val)`
abbrev pub tokens_match : Option Text → Option Text → Bool
tokens_match (some c) (some h) = not (is_empty c) && text_eq c h
tokens_match (some c) none = false
tokens_match none h = false

-- The cookie's value, drawn where the request has none.
abbrev pub cookie_of : Env → Request → Text
cookie_of env request = elim (get xsrf_cookie_name request.cookies) [
  | none ↦ env.uuid_text env.new_uuid
  | some c ↦ c
]

-- `add_cookie token r` is `response_mut().add_cookie` of the cookie with that value.
module _ (add_cookie : Text → Response → Result Response Anyhow) {W : Type 0} where
  abbrev pub with_cookie : Text → Result Response WebError × W → Result Response WebError × W
  with_cookie token (err e, w) = (err e, w)
  with_cookie token (ok r, w) = elim (add_cookie token r) [
    | err e ↦ (err (e500 e), w)
    | ok r' ↦ (ok r', w)
  ]

  unfoldable pub cross_site_request_forgery_protection : Env → Request → Next W → Next W
  cross_site_request_forgery_protection env request next w =
      if not (is_safe request.method)
        && not (
            tokens_match (get xsrf_cookie_name request.cookies)
              (header_text env request xsrf_header_name))
      then (err (error_with 403 (msg (text "Invalid CSRF token"))), w)
      else with_cookie (cookie_of env request) (next w)
