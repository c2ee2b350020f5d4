-- ===== src/Startup/Token.antt =====
-- What the check of the token in src/startup.rs lets through to the handlers behind it.
use portfolio_server.Auth.Guards.{cross_site_request_forgery_protection-runs}
use portfolio_server.Errors.Web.{WebError}
use portfolio_server.Errors.Sql.{Anyhow}
use portfolio_server.Idempotency.Execute.{header_text}
use portfolio_server.Auth.Middleware.{
  tokens_match, xsrf_cookie_name, xsrf_header_name, cross_site_request_forgery_protection,
  with_cookie, Next, is_safe, cookie_of,
}
use portfolio_server.Http.{Request, get, Response}
use portfolio_server.Prelude.{
  Text, Bool, Result, ◌≡◌, some, is_empty, true, err, false, Bool-cases, ◌⊎◌, ok, inl, Result-cases,
  inr, refl, arith, ap, ◌∙◌,
}
use portfolio_server.Env.{Env}

-- The token of a request, in its cookie and in its header.
abbrev pub HasToken : Env → Request → Type 0
HasToken env request =
    (token : Text) × (get xsrf_cookie_name request.cookies ≡ some token)
    × (header_text env request xsrf_header_name ≡ some token)
    × (is_empty token ≡ false)

-- The token in the cookie is that in the header.
abbrev pub has_token : Env → Request → Bool
has_token env request =
    tokens_match (get xsrf_cookie_name request.cookies) (header_text env request xsrf_header_name)

module _ (add_cookie : Text → Response → Result Response Anyhow) {W : Type 0} (env : Env)
    (request : Request) (w : W) where
  with_cookie-state :
      (t : Text) (out : Result Response WebError × W) → (with_cookie add_cookie t out).1 ≡ out.1
  with_cookie-state t (err e, v) = refl
  with_cookie-state t (ok r, v) = elim (Result-cases (add_cookie t r)) [
    | inl (r', added) ↦ rw (added, with_cookie) refl
    | inr (e, failed) ↦ rw (failed, with_cookie) refl
  ]

  -- Behind the protection nothing has run, or what is behind it ran, for a request with its token.
  pub protected-state :
      (next : Next W)
      → let out = cross_site_request_forgery_protection add_cookie env request next w in
        (out.1 ≡ w)
        ⊎ ((is_safe request.method ≡ false → HasToken env request) × (out.1 ≡ (next w).1))
  unfolding cross_site_request_forgery_protection
  protected-state next = elim (Bool-cases (is_safe request.method)) [
    | inl safe ↦ inr (
      λ unsafe. ground arith,
      rw (safe, cross_site_request_forgery_protection)
          (with_cookie-state (cookie_of env request) (next w)),
    )
    | inr unsafe ↦
        elim (cross_site_request_forgery_protection-runs add_cookie env request next w unsafe) [
          | inr (e, failed, _) ↦ inl (ap (λ out. out.1) failed)
          | inl (token, sent, given, full, ran) ↦ inr (
            λ _. (token, sent, given, full),
            ap (λ out. out.1) ran ∙ with_cookie-state token (next w),
          )
        ]
  ]

  pub protected-runs :
      has_token env request ≡ true
      → (next : Next W)
      → (cross_site_request_forgery_protection add_cookie env request next w).1 ≡ (next w).1
  unfolding cross_site_request_forgery_protection
  protected-runs matches next = elim (Bool-cases (is_safe request.method)) [
    | inl safe ↦
        rw (safe, cross_site_request_forgery_protection)
          (with_cookie-state (cookie_of env request) (next w))
    | inr unsafe ↦
        rw (unsafe, matches, cross_site_request_forgery_protection)
          (with_cookie-state (cookie_of env request) (next w))
  ]
