-- ===== src/Auth/Guards.antt =====
-- What the middlewares of src/authentication/middleware.rs let through.
use portfolio_server.Env.{Env}
use portfolio_server.Errors.Sql.{Anyhow, msg}
use portfolio_server.Http.{Response, Request, get}
use portfolio_server.Prelude.{
  ℕ, Result, Text, ◌≡◌, Option, ok, err, some, ◌⊎◌, inl, false, none, inr, refl, is_empty, arith,
  ◌∙◌, text, Option-cases, Bool-cases, not, ◌&&◌, text_eq, true, ap, sym, text_eq_iff,
}
use portfolio_server.Types.User.{admin, user, chat_user}
use portfolio_server.Errors.Web.{status, WebError, e500, error_with, from_response, unauthorized}
use portfolio_server.Session.Typed.{SessionLib, get_user_id, get_user_role}
use portfolio_server.Auth.Middleware.{
  reject_anonymous_users, reject_non_admin, admin_scope, Next,
  cross_site_request_forgery_protection, is_safe, xsrf_cookie_name, xsrf_header_name, with_cookie,
  cookie_of,
}
use portfolio_server.Idempotency.Execute.{header_text}

pub Answer-cases :
    {A : Type 0} (r : Result (Option A) Anyhow)
    → ((e : Anyhow) × (r ≡ err e)) ⊎ ((r ≡ ok none) ⊎ ((a : A) × (r ≡ ok (some a))))
Answer-cases (err e) = inl (e, refl)
Answer-cases (ok none) = inr (inl refl)
Answer-cases (ok (some a)) = inr (inr (a, refl))

abbrev refused : WebError
refused = from_response (msg (text "The user is not an admin")) unauthorized

module _ (S : SessionLib) {W : Type 0} (session : W → S.State) where
  pub reject_anonymous_users-runs :
      (handler : ℕ → Next W) (w : W)
      → ((id : ℕ) × (get_user_id S (session w) ≡ ok (some id))
          × (reject_anonymous_users S session handler w ≡ handler id w))
        ⊎ ((e : WebError) × (reject_anonymous_users S session handler w ≡ (err e, w))
            × ((status e ≡ 401) ⊎ (status e ≡ 500)))
  unfolding reject_anonymous_users get_user_id status
  reject_anonymous_users-runs handler w = elim (Answer-cases (get_user_id S (session w))) [
    | inl (e, wrong) ↦ inr (e500 e, rw (wrong, reject_anonymous_users) refl, inr refl)
    | inr (inl missing) ↦ inr (
      from_response (msg (text "The user has not logged in")) unauthorized,
      rw (missing, reject_anonymous_users) refl,
      inl refl,
    )
    | inr (inr (id, found)) ↦ inl (id, found, rw (found, reject_anonymous_users) refl)
  ]

  reject_non_admin-runs :
      (next : Next W) (w : W)
      → ((get_user_role S (session w) ≡ ok (some admin))
          × (reject_non_admin S session next w ≡ next w))
        ⊎ ((e : WebError) × (reject_non_admin S session next w ≡ (err e, w))
            × ((status e ≡ 401) ⊎ (status e ≡ 500)))
  unfolding reject_non_admin get_user_role status
  reject_non_admin-runs next w = elim (Answer-cases (get_user_role S (session w))) [
    | inl (e, wrong) ↦ inr (e500 e, rw (wrong, reject_non_admin) refl, inr refl)
    | inr (inl missing) ↦ inr (refused, rw (missing, reject_non_admin) refl, inl refl)
    | inr (inr (admin, found)) ↦ inl (found, rw (found, reject_non_admin) refl)
    | inr (inr (user, found)) ↦ inr (refused, rw (found, reject_non_admin) refl, inl refl)
    | inr (inr (chat_user, found)) ↦ inr (refused, rw (found, reject_non_admin) refl, inl refl)
  ]

  -- A handler under `/admin` runs only for a session that has a user and the role of an admin, and
  -- then as it is, with that user; every other request fails with status 401 or 500 and changes
  -- nothing.
  pub admin_scope-runs :
      (handler : ℕ → Next W) (w : W)
      → ((id : ℕ) × (get_user_id S (session w) ≡ ok (some id))
          × (get_user_role S (session w) ≡ ok (some admin))
          × (admin_scope S session handler w ≡ handler id w))
        ⊎ ((e : WebError) × (admin_scope S session handler w ≡ (err e, w))
            × ((status e ≡ 401) ⊎ (status e ≡ 500)))
  unfolding admin_scope reject_non_admin reject_anonymous_users get_user_id get_user_role status
  admin_scope-runs handler w =
      elim (reject_non_admin-runs (reject_anonymous_users S session handler) w) [
        | inr refusal ↦ inr refusal
        | inl (role, inner) ↦ elim (reject_anonymous_users-runs handler w) [
          | inr (e, refusal, s) ↦ inr (e, inner ∙ refusal, s)
          | inl (id, there, ran) ↦ inl (id, there, role, inner ∙ ran)
        ]
      ]

-- A request whose method may change something is passed on only when it has the token's cookie, not
-- empty, and the same text in the header; else it fails with status 403 and changes nothing.
pub cross_site_request_forgery_protection-runs :
    (add_cookie : Text → Response → Result Response Anyhow) {W : Type 0} (env : Env)
    (request : Request) (next : Next W) (w : W)
    → is_safe request.method ≡ false
    → ((token : Text) × (get xsrf_cookie_name request.cookies ≡ some token)
        × (header_text env request xsrf_header_name ≡ some token)
        × (is_empty token ≡ false)
        × (cross_site_request_forgery_protection add_cookie env request next w
            ≡ with_cookie add_cookie token (next w)))
      ⊎ ((e : WebError) × (cross_site_request_forgery_protection add_cookie env request next w
            ≡ (err e, w))
          × (status e ≡ 403))
unfolding cross_site_request_forgery_protection status
cross_site_request_forgery_protection-runs add_cookie env request next w unsafe =
    let forbidden = error_with 403 (msg (text "Invalid CSRF token")) in
    elim (Option-cases (get xsrf_cookie_name request.cookies)) [
      | inl none_sent ↦
          inr (forbidden, rw (unsafe, none_sent, cross_site_request_forgery_protection) refl, refl)
      | inr (c, sent) ↦ elim (Option-cases (header_text env request xsrf_header_name)) [
        | inl no_header ↦ inr (
          forbidden,
          rw (unsafe, sent, no_header, cross_site_request_forgery_protection) refl,
          refl,
        )
        | inr (h, given) ↦ elim (Bool-cases (not (is_empty c) && text_eq c h)) [
          | inr apart ↦ inr (
            forbidden,
            rw (unsafe, sent, given, apart, cross_site_request_forgery_protection) refl,
            refl,
          )
          | inl same ↦
              let (full, equal) : (is_empty c ≡ false) × (text_eq c h ≡ true) = ground arith in
              let token : cookie_of env request ≡ c = rw (sent, cookie_of) refl in
              inl (
                c,
                sent,
                given ∙ ap some (sym ((text_eq_iff c h).0 equal)),
                full,
                rw (unsafe, sent, given, same, cross_site_request_forgery_protection)
                    (ap (λ t. with_cookie add_cookie t (next w)) token),
              )
        ]
      ]
    ]
