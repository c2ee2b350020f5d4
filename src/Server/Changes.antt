-- ===== src/Server/Changes.antt =====
-- What each handler of src/startup.rs does to the tables and to the session: nothing, one request
-- that writes to the tables, or one step of the session's life.
use portfolio_server.Errors.Web.{WebError}
use portfolio_server.Errors.Sql.{Anyhow}
use portfolio_server.Auth.Middleware.{Next, from_request}
use portfolio_server.Http.{Request}
use portfolio_server.Users.ChatToken.{JwtLib}
use portfolio_server.Db.{Db}
use portfolio_server.Env.{Env}
use portfolio_server.Session.Typed.{SessionLib}
use portfolio_server.Prelude.{ℕ, Option, some, none, ok, ◌≡◌, err, List, refl, Result, Text, ◌∙◌}
use portfolio_server.Startup.{
  to_root, to_health_check, to_login, to_verify_totp, to_logout, to_check_auth, to_post_message,
  to_get_articles, to_accept_invitation, to_chat_token, to_update_user_password, to_create_user,
  to_get_all_users, to_set_user_role, to_reset_password, to_get_messages, to_patch_message,
  to_insert_article, to_publish_article, to_delete_article, to_edit_article, to_totp_setup,
  to_totp_confirm, to_totp_disable, to_totp_status, Endpoint,
}
use portfolio_server.System.{
  Call, serve, posts_message, marks_message, inserts, edits, publishes, deletes, invites, accepts,
  manages, changes_password, sets_role, resets,
}
use portfolio_server.Users.Totp.Machine.{TotpCall, sets_up, confirms, disables}
use portfolio_server.Auth.Journey.{Step, logs_in, verifies, logs_out, checks, after}
use portfolio_server.Server.{AppData, Inputs, World, endpoints, given, given_json, req_data}

-- The endpoint whose handler makes a call, and the user it makes the call for.
abbrev pub endpoint_of : Call → Endpoint
endpoint_of (posts_message config form) = to_post_message
endpoint_of (marks_message user message) = to_patch_message
endpoint_of (inserts user article) = to_insert_article
endpoint_of (edits user article) = to_edit_article
endpoint_of (publishes user article) = to_publish_article
endpoint_of (deletes user article) = to_delete_article
endpoint_of (invites user base_url new) = to_create_user
endpoint_of (accepts params) = to_accept_invitation
endpoint_of (manages user (sets_up lib cipher key secret nonce)) = to_totp_setup
endpoint_of (manages user (confirms lib cipher key code)) = to_totp_confirm
endpoint_of (manages user (disables password)) = to_totp_disable
endpoint_of (manages user TotpCall.asks) = to_totp_status
endpoint_of (changes_password user body) = to_update_user_password
endpoint_of (sets_role user role) = to_set_user_role
endpoint_of (resets user) = to_reset_password

abbrev pub caller : Call → Option ℕ
caller (marks_message user message) = some user
caller (inserts user article) = some user
caller (edits user article) = some user
caller (publishes user article) = some user
caller (deletes user article) = some user
caller (invites user base_url new) = some user
caller (manages user call) = some user
caller (changes_password user body) = some user
caller _ = none

abbrev pub step_of : AppData → Env → Inputs → Endpoint → Db → Option Step
step_of app env input to_login pool = elim input.credentials [
  | ok asked ↦ some (logs_in env asked pool)
  | err e ↦ none
]
step_of app env input to_verify_totp pool = elim input.code [
  | ok code ↦ some (verifies env app.totp app.cipher app.shared.totp code pool)
  | err e ↦ none
]
step_of app env input to_logout pool = some logs_out
step_of app env input to_check_auth pool = some (checks env)
step_of app env input _ pool = none

module _ (S : SessionLib) (jwt : JwtLib) (app : AppData) (env : Env) (request : Request)
    (input : Inputs) where
  pub data Changed (e : Endpoint) (u : Option ℕ) (w : World S) : World S → Type 0 where
    kept : Changed e u w w
    wrote :
        (call : Call)
        → endpoint_of call ≡ e
        → ((id : ℕ) → caller call ≡ some id → u ≡ some id)
        → Changed e u w (record w { pool = (serve env request call w.pool).1 })
    stepped :
        (step : Step)
        → step_of app env input e w.pool ≡ some step
        → Changed e u w (record w { session = after S step w.session })

  module _ (e : Endpoint) (u : Option ℕ) (w : World S) {A : Type 0} (f : A → Next (World S)) where
    given-Changed :
        (r : Result A WebError)
        → ((a : A) → r ≡ ok a → Changed e u w (f a w).1)
        → Changed e u w (given S r f w).1
    given-Changed (ok a) ran = ran a refl
    given-Changed (err wrong) ran = kept

    given_json-Changed :
        (r : Result A Anyhow)
        → ((a : A) → r ≡ ok a → Changed e u w (f a w).1)
        → Changed e u w (given_json S r f w).1
    given_json-Changed (ok a) ran = ran a refl
    given_json-Changed (err wrong) ran = kept

  for_user :
      (e : Endpoint) (u : Option ℕ) (w : World S) (f : ℕ → Next (World S))
      → ((id : ℕ) → u ≡ some id → Changed e u w (f id w).1)
      → Changed e u w (given S (req_data u) f w).1
  for_user e none w f ran = kept
  for_user e (some id) w f ran = ran id refl

  own : {u : Option ℕ} {user : ℕ} → u ≡ some user → (id : ℕ) → some user ≡ some id → u ≡ some id
  own is id same = is ∙ same

  pub endpoints-Changed :
      (e : Endpoint) (u : Option ℕ) (path : List Text) (w : World S)
      → Changed e u w (endpoints S jwt app env request input e u path w).1
  unfolding endpoints after
  endpoints-Changed to_root u path w = kept
  endpoints-Changed to_health_check u path w = kept
  endpoints-Changed to_login u path w =
      given-Changed to_login u w _ input.credentials
        (λ asked is. stepped (logs_in env asked w.pool) (rw is refl))
  endpoints-Changed to_verify_totp u path w =
      given-Changed to_verify_totp u w _ input.code (λ code is.
        stepped (verifies env app.totp app.cipher app.shared.totp code w.pool) (rw is refl))
  endpoints-Changed to_logout u path w = stepped logs_out refl
  endpoints-Changed to_check_auth u path w = stepped (checks env) refl
  endpoints-Changed to_post_message u path w =
      given-Changed to_post_message u w _ input.message
        (λ form is. wrote (posts_message app.shared.message form) refl (λ id none_is. cc))
  endpoints-Changed to_get_articles u path w = kept
  endpoints-Changed to_accept_invitation u path w =
      given-Changed to_accept_invitation u w _ input.acceptance
        (λ params is. wrote (accepts params) refl (λ id none_is. cc))
  endpoints-Changed to_chat_token u path w =
      given-Changed to_chat_token u w _ (from_request u) (λ id is. kept)
  endpoints-Changed to_update_user_password u path w =
      for_user to_update_user_password u w _ (λ id is.
        given-Changed to_update_user_password u w _ input.passwords
          (λ body _. wrote (changes_password id body) refl (own is)))
  endpoints-Changed to_create_user u path w = for_user to_create_user u w _ (λ id is.
      given_json-Changed to_create_user u w _ input.invitee
        (λ new _. wrote (invites id app.shared.base_url new) refl (own is)))
  endpoints-Changed to_get_all_users u path w = kept
  endpoints-Changed to_set_user_role u path w =
      given-Changed to_set_user_role u w _ (input.uuid_of path) (λ id is.
        given_json-Changed to_set_user_role u w _ input.role
          (λ role _. wrote (sets_role id role) refl (λ i none_is. cc)))
  endpoints-Changed to_reset_password u path w =
      given-Changed to_reset_password u w _ (input.uuid_of path)
        (λ id is. wrote (resets id) refl (λ i none_is. cc))
  endpoints-Changed to_get_messages u path w =
      given-Changed to_get_messages u w _ input.pagination (λ q is. kept)
  endpoints-Changed to_patch_message u path w = for_user to_patch_message u w _ (λ id is.
      given_json-Changed to_patch_message u w _ input.marked
        (λ message _. wrote (marks_message id message) refl (own is)))
  endpoints-Changed to_insert_article u path w = for_user to_insert_article u w _ (λ id is.
      given_json-Changed to_insert_article u w _ input.article
        (λ article _. wrote (inserts id article) refl (own is)))
  endpoints-Changed to_publish_article u path w = for_user to_publish_article u w _ (λ id is.
      given_json-Changed to_publish_article u w _ input.published
        (λ article _. wrote (publishes id article) refl (own is)))
  endpoints-Changed to_delete_article u path w = for_user to_delete_article u w _ (λ id is.
      given_json-Changed to_delete_article u w _ input.deleted
        (λ article _. wrote (deletes id article) refl (own is)))
  endpoints-Changed to_edit_article u path w = for_user to_edit_article u w _ (λ id is.
      given_json-Changed to_edit_article u w _ input.edited
        (λ article _. wrote (edits id article) refl (own is)))
  endpoints-Changed to_totp_setup u path w = for_user to_totp_setup u w _ (λ id is.
      wrote (manages id (sets_up app.totp app.cipher app.shared.totp input.secret input.nonce)) refl
        (own is))
  endpoints-Changed to_totp_confirm u path w = for_user to_totp_confirm u w _ (λ id is.
      given_json-Changed to_totp_confirm u w _ input.confirming (λ code _.
        wrote (manages id (confirms app.totp app.cipher app.shared.totp code)) refl (own is)))
  endpoints-Changed to_totp_disable u path w = for_user to_totp_disable u w _ (λ id is.
      given_json-Changed to_totp_disable u w _ input.disabling
        (λ password _. wrote (manages id (disables password)) refl (own is)))
  endpoints-Changed to_totp_status u path w =
      for_user to_totp_status u w _ (λ id is. wrote (manages id TotpCall.asks) refl (own is))
