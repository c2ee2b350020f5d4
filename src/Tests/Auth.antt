-- ===== src/Tests/Auth.antt =====
-- Tests of the sessions, the middlewares and the sign-in.
use portfolio_server.Auth.ChangePassword.{ChangePasswordBody}
use portfolio_server.Idempotency.Execute.{header_text}
use portfolio_server.Errors.Sql.{Anyhow}
use portfolio_server.Prelude.{
  [], text_eq, some, text, Text, Bool, ◌∷◌, ℕ, true, List, none, ◌≡◌, Result, refl, false, ok,
  is_empty, ◌↔◌, find?, ◌+◌, ◌⊎◌, err,
}
use portfolio_server.Http.{Request, get, Response, Json, finish}
use portfolio_server.Tests.Sessions.{in_list, in_list-IsLawful}
use portfolio_server.Tests.Samples.{quiet, two_posts, asks}
use portfolio_server.Auth.Authentic.{Reach-Justified}
use portfolio_server.Auth.Journey.{begins, goes_on, Justified, logs_in, after}
use portfolio_server.Auth.Login.{LoginRequest}
use portfolio_server.Auth.Password.{validate_credentials, role_or_user, Validated}
use portfolio_server.Auth.Validates.{validate_credentials_iff}
use portfolio_server.Auth.Guards.{cross_site_request_forgery_protection-runs}
use portfolio_server.Auth.Middleware.{
  admin_scope, cross_site_request_forgery_protection, with_cookie, xsrf_cookie_name,
  xsrf_header_name,
}
use portfolio_server.Types.User.{admin}
use portfolio_server.Db.{Db, UserRow}
use portfolio_server.Errors.Web.{WebError, status}

abbrev ann : UserRow
ann = record {
  user_id = 1;
  username = text "ann";
  password_hash = text "pw";
  totp_secret = none;
  totp_enabled = false;
  role = some (text "admin");
  must_change_password = false;
}

abbrev with_ann : Db
with_ann = record two_posts { users = ann ∷ [] }

abbrev ann_asks : LoginRequest
ann_asks = record { username = text "ann"; password = text "pw" }

abbrev as_admin : Validated
as_admin = (1, (false, (false, admin)))

validate_credentials_iff_example :
    (validate_credentials quiet (record { username = text "ann"; password = text "pw" }) with_ann
      ≡ ok as_admin)
    ↔ ((row : UserRow) × (find? (λ r. text_eq r.username (text "ann")) with_ann.users ≡ some row)
        × (true ≡ true)
        × (text_eq row.password_hash (text "pw") ≡ true)
        × (as_admin
            ≡ (row.user_id, (row.totp_enabled, (row.must_change_password, role_or_user row.role)))))
validate_credentials_iff_example =
    validate_credentials_iff quiet (record { username = text "ann"; password = text "pw" }) with_ann
      as_admin refl

Reach-Justified_example :
    Justified in_list
      (logs_in quiet ann_asks with_ann ∷ [])
      (after in_list (logs_in quiet ann_asks with_ann) (true, []))
unfolding get
Reach-Justified_example = Reach-Justified in_list in_list-IsLawful (
    goes_on (logs_in quiet ann_asks with_ann) [] (true, []) (true, [])
      (begins (true, []) (λ key. refl)) (λ key. refl) refl)

abbrev handler :
    ℕ → Bool × List (Text × Json) → Result Response WebError × (Bool × List (Text × Json))
handler id s = (ok (finish 200), s)

abbrev of_ann : Bool × List (Text × Json)
of_ann = (true, (text "user_id", Json.num 1) ∷ (text "user_role", Json.str (text "admin")) ∷ [])

admin_scope_test : admin_scope in_list (λ s. s) handler of_ann ≡ (ok (finish 200), of_ann)
unfolding admin_scope get text_eq
admin_scope_test = refl

abbrev keeps_response : Text → Response → Result Response Anyhow
keeps_response token r = ok r

abbrev asks_to_post : Request
asks_to_post = asks (text "POST") (text "/v1/contact") (text "k")

abbrev next : ℕ → Result Response WebError × ℕ
next n = (ok (finish 200), n + 1)

cross_site_request_forgery_protection-runs_example :
    ((token : Text) × (get xsrf_cookie_name asks_to_post.cookies ≡ some token)
      × (header_text quiet asks_to_post xsrf_header_name ≡ some token)
      × (is_empty token ≡ false)
      × (cross_site_request_forgery_protection keeps_response quiet asks_to_post next 0
          ≡ with_cookie keeps_response token (next 0)))
    ⊎ ((e : WebError) × (cross_site_request_forgery_protection keeps_response quiet asks_to_post
            next 0
          ≡ (err e, 0))
        × (status e ≡ 403))
unfolding text_eq
cross_site_request_forgery_protection-runs_example =
    cross_site_request_forgery_protection-runs keeps_response quiet asks_to_post next 0 refl

abbrev new_password : ChangePasswordBody
new_password = record { current_password = text "pw"; new_password = text "better" }
