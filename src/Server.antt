-- ===== src/Server.antt =====
-- The whole server of src/startup.rs: its state, the handlers with the values that the extractors of
-- actix-web hand to them, and the answer to a request. Of the extractors it uses that a handler runs
-- only when all of them succeed, and else the first error is the answer.
pub mod Changes
pub mod Permitted
pub mod Client
pub mod Visits
pub mod Forged
pub mod Sound
use portfolio_server.Startup.Build.{ServerData}
use portfolio_server.Blog.List.{get_articles}
use portfolio_server.Messages.Patch.{MessagePatchRequest}
use portfolio_server.Types.Article.{
  ArticleRecord, ArticleForm, ArticleEditRequest, ArticlePublishRequest, ArticleDeleteRequest,
}
use portfolio_server.Types.User.{UserRole}
use portfolio_server.Types.Pagination.{PaginatedResponse, PaginationQuery}
use portfolio_server.Users.Invite.{CreateUser}
use portfolio_server.Crypto.{Cipher}
use portfolio_server.Auth.ChangePassword.{ChangePasswordBody}
use portfolio_server.Auth.VerifyTotp.{TotpLib, verify_totp}
use portfolio_server.Users.Accept.{AcceptInvitationParams}
use portfolio_server.Startup.{
  Handlers, run_routes, to_root, to_health_check, to_login, to_verify_totp, to_logout,
  to_check_auth, to_post_message, to_get_articles, to_accept_invitation, to_chat_token,
  to_update_user_password, to_create_user, to_get_all_users, to_set_user_role, to_reset_password,
  to_get_messages, to_patch_message, to_insert_article, to_publish_article, to_delete_article,
  to_edit_article, to_totp_setup, to_totp_confirm, to_totp_disable, to_totp_status,
}
use portfolio_server.System.{
  Call, serve, posts_message, marks_message, inserts, edits, publishes, deletes, invites, accepts,
  manages, changes_password, sets_role, resets,
}
use portfolio_server.Users.ChatToken.{JwtLib, chat_token}
use portfolio_server.Users.Admin.{User, get_all_users}
use portfolio_server.Messages.List.{MessagesResponse, get_messages}
use portfolio_server.Users.Totp.Machine.{TotpCall, sets_up, confirms, disables}
use portfolio_server.Contact.Form.{MessageForm}
use portfolio_server.Contact.Post.{MessageRateLimitSettings}
use portfolio_server.Errors.Web.{WebError, from_response, error_with}
use portfolio_server.Auth.Middleware.{Next, from_request}
use portfolio_server.Auth.Login.{LoginRequest, login, logout, check_auth}
use portfolio_server.Db.{Db}
use portfolio_server.Session.Typed.{SessionLib}
use portfolio_server.Errors.Sql.{Anyhow, msg}
use portfolio_server.Env.{Env, respond}
use portfolio_server.Http.{Response, Json, finish, Request, Body}
use portfolio_server.Prelude.{
  ℕ, Result, Bytes, Option, text, Text, ◌∷◌, map_err, some, ok, [], err, none, List,
}

-- `.app_data(…)`, the libraries of the handlers, and the serialisers that serde derives.
pub record AppData : Type 0 where
  pub page : Bytes
  pub shared : ServerData
  pub totp : TotpLib
  pub cipher : Cipher
  pub articles_to_json : PaginatedResponse ArticleRecord → Json
  pub messages_to_json : MessagesResponse → Json
  pub users_to_json : List User → Json

-- What the extractors make of a request's body, query and path, and the random bytes of a handler.
-- The errors of the JSON bodies under `/admin` go to the handler that `JsonConfig` is given.
pub record Inputs : Type 0 where
  pub credentials : Result LoginRequest WebError
  pub code : Result Text WebError
  pub message : Result MessageForm WebError
  pub acceptance : Result AcceptInvitationParams WebError
  pub passwords : Result ChangePasswordBody WebError
  pub invitee : Result CreateUser Anyhow
  pub role : Result UserRole Anyhow
  pub marked : Result MessagePatchRequest Anyhow
  pub article : Result ArticleForm Anyhow
  pub edited : Result ArticleEditRequest Anyhow
  pub published : Result ArticlePublishRequest Anyhow
  pub deleted : Result ArticleDeleteRequest Anyhow
  pub confirming : Result Text Anyhow
  pub disabling : Result Text Anyhow
  pub pagination : Result PaginationQuery WebError
  pub uuid_of : List Text → Result ℕ WebError
  pub secret : Bytes
  pub nonce : Bytes

-- The error handler of the bodies under `/admin`.
abbrev pub too_large : Anyhow → WebError
too_large e = from_response e (finish 413)

-- `web::ReqData<UserId>`
abbrev pub req_data : Option ℕ → Result ℕ WebError
req_data (some id) = ok id
req_data none = err (error_with 500 (msg (text "Missing expected request extension data")))

unfoldable pub root : Bytes → Response
root html = record {
  status = 200;
  headers = (text "content-type", text "text/html; charset=utf-8") ∷ [];
  body = Body.bytes html;
}

unfoldable pub health_check : Response
health_check = finish 200

-- The tables, and the session that the request's cookie names.
pub record World (S : SessionLib) : Type 0 where
  pub pool : Db
  pub session : S.State

module _ (S : SessionLib) where
  -- A handler that only answers, one that writes to the tables, and one that writes to the session.
  abbrev pub answers : Result Response WebError → Next (World S)
  answers r w = (r, w)

  abbrev pub on_pool : (Db → Result Response WebError × Db) → Next (World S)
  on_pool f w = let (r, pool) = f w.pool in (r, record w { pool = pool })

  abbrev pub on_session : (World S → Result Response WebError × S.State) → Next (World S)
  on_session f w = let (r, session) = f w in (r, record w { session = session })

  -- What an extractor gives.
  abbrev pub given : {A : Type 0} → Result A WebError → (A → Next (World S)) → Next (World S)
  given (ok a) f w = f a w
  given (err e) f w = (err e, w)

  abbrev pub given_json : {A : Type 0} → Result A Anyhow → (A → Next (World S)) → Next (World S)
  given_json r f = given (map_err too_large r) f

-- `HttpResponse::Ok().json(…)`
abbrev pub ok_json : {A : Type 0} → Env → (A → Json) → Result A WebError → Result Response WebError
ok_json env to_json (ok a) = ok (respond env 200 (to_json a))
ok_json env to_json (err e) = err e

module _ (S : SessionLib) (jwt : JwtLib) (app : AppData) (env : Env) (request : Request)
    (input : Inputs) where
  -- A request that writes to the tables.
  abbrev pub calls : Call → Next (World S)
  calls call = on_pool S (serve env request call)

  unfoldable pub endpoints : Handlers (World S)
  unfolding serve login verify_totp logout check_auth get_articles chat_token get_all_users
      get_messages root health_check
  endpoints to_root u path w = answers S (ok (root app.page)) w
  endpoints to_health_check u path w = answers S (ok health_check) w
  endpoints to_login u path w =
      given S input.credentials (λ asked. on_session S (λ v. login S env asked v.pool v.session)) w
  endpoints to_verify_totp u path w =
      given S input.code
        (λ code.
          on_session S
            (λ v. verify_totp S env app.totp app.cipher app.shared.totp code v.pool v.session))
        w
  endpoints to_logout u path w = on_session S (λ v. logout S v.session) w
  endpoints to_check_auth u path w =
      on_session S (λ v. let (r, s) = check_auth S env v.session in (ok r, s)) w
  endpoints to_post_message u path w =
      given S input.message (λ form. calls (posts_message app.shared.message form)) w
  endpoints to_get_articles u path w =
      answers S (ok_json env app.articles_to_json (get_articles S env request w.pool w.session)) w
  endpoints to_accept_invitation u path w =
      given S input.acceptance (λ params. calls (accepts params)) w
  endpoints to_chat_token u path w =
      given S (from_request u) (λ id. answers S (chat_token env jwt app.shared.jwt id w.pool)) w
  endpoints to_update_user_password u path w =
      given S (req_data u)
        (λ id. given S input.passwords (λ body. calls (changes_password id body))) w
  endpoints to_create_user u path w =
      given S (req_data u)
        (λ id. given_json S input.invitee (λ new. calls (invites id app.shared.base_url new))) w
  endpoints to_get_all_users u path w =
      answers S (ok_json env app.users_to_json (get_all_users env w.pool)) w
  endpoints to_set_user_role u path w =
      given S (input.uuid_of path)
        (λ id. given_json S input.role (λ role. calls (sets_role id role))) w
  endpoints to_reset_password u path w = given S (input.uuid_of path) (λ id. calls (resets id)) w
  endpoints to_get_messages u path w =
      given S input.pagination
        (λ q. answers S (ok_json env app.messages_to_json (get_messages env q w.pool))) w
  endpoints to_patch_message u path w =
      given S (req_data u)
        (λ id. given_json S input.marked (λ message. calls (marks_message id message))) w
  endpoints to_insert_article u path w =
      given S (req_data u)
        (λ id. given_json S input.article (λ article. calls (inserts id article))) w
  endpoints to_publish_article u path w =
      given S (req_data u)
        (λ id. given_json S input.published (λ article. calls (publishes id article))) w
  endpoints to_delete_article u path w =
      given S (req_data u)
        (λ id. given_json S input.deleted (λ article. calls (deletes id article))) w
  endpoints to_edit_article u path w =
      given S (req_data u) (λ id. given_json S input.edited (λ article. calls (edits id article))) w
  endpoints to_totp_setup u path w =
      given S (req_data u)
        (λ id.
          calls (manages id (sets_up app.totp app.cipher app.shared.totp input.secret input.nonce)))
        w
  endpoints to_totp_confirm u path w =
      given S (req_data u)
        (λ id.
          given_json S input.confirming
            (λ code. calls (manages id (confirms app.totp app.cipher app.shared.totp code))))
        w
  endpoints to_totp_disable u path w =
      given S (req_data u)
        (λ id. given_json S input.disabling (λ password. calls (manages id (disables password)))) w
  endpoints to_totp_status u path w =
      given S (req_data u) (λ id. calls (manages id TotpCall.asks)) w

  unfoldable pub respond_to :
      (Text → Response → Result Response Anyhow) → World S → Result Response WebError × World S
  unfolding endpoints run_routes
  respond_to add_cookie w = run_routes S add_cookie (λ v. v.session) env request endpoints w
