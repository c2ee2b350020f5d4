-- ===== src/System.antt =====
-- The requests that write to the tables, one after the other: the handlers of src/routes/contact,
-- src/routes/admin/dashboard, src/routes/invitations and src/authentication, as src/startup.rs routes
-- them, on the tables that the requests before left.
pub mod Writes
mod Calls
mod Keys
pub mod Sound
pub mod Spent
pub mod Listed
use portfolio_server.Types.User.{UserRole}
use portfolio_server.Users.Admin.{set_user_role, reset_password}
use portfolio_server.Auth.ChangePassword.{update_user_password, ChangePasswordBody}
use portfolio_server.Users.Well.{is_well}
use portfolio_server.Users.Totp.Machine.{manage, TotpCall}
use portfolio_server.Users.Accept.{accept_invitation, AcceptInvitationParams}
use portfolio_server.Users.Unique.{IsUniqueUsers}
use portfolio_server.Users.Invite.{create_user, CreateUser}
use portfolio_server.Idempotency.Store.{try_processing}
use portfolio_server.Contact.Spacing.{
  process_new_message-KeepsKeys, process_new_message-AnswersInRange,
}
use portfolio_server.Messages.Effects.{process_patch_message-KeepsKeys}
use portfolio_server.Blog.Actions.{
  BlogAction, run, create, edit, publish, delete, run-KeepsKeys, run-AnswersInRange,
  run-IsUniquePosts,
}
use portfolio_server.Http.{Request, Response}
use portfolio_server.Errors.Web.{WebError, idempotency, auth}
use portfolio_server.Prelude.{
  ℕ, ◌≡◌, [], Result, Option, Result-cases, ok, inl, inr, ap, err, Option-cases, some, arith, ◌≤◌,
  none, ◌<◌, map_err, count, suc, zero, Text, all, true,
}
use portfolio_server.Db.{Db, UserRow}
use portfolio_server.Env.{Env, update_message}
use portfolio_server.Idempotency.Execute.{Action, execute_idempotent, operation_of}
use portfolio_server.Idempotency.Outcome.{execute_idempotent-ok, execute_idempotent-err, claimed}
use portfolio_server.Idempotency.Replay.{KeepsKeys}
use portfolio_server.Idempotency.Table.{
  IsConsistent, AnswersInRange, execute_idempotent-IsConsistent,
}
use portfolio_server.Blog.Effects.{IsUniquePosts}
use portfolio_server.Blog.Post.{insert_article}
use portfolio_server.Blog.Edit.{edit_article}
use portfolio_server.Blog.Publish.{publish_article}
use portfolio_server.Blog.Delete.{delete_article}
use portfolio_server.Contact.Form.{MessageForm}
use portfolio_server.Contact.Post.{
  MessageRateLimitSettings, post_message, process_new_message, query_rate, insert_validated,
  insert_message_row,
}
use portfolio_server.Messages.Patch.{
  MessagePatchRequest, patch_message, by_patched, is_message, process_patch_message,
}
use portfolio_server.Types.Article.{
  ArticleForm, ArticleEditRequest, ArticlePublishRequest, ArticleDeleteRequest, validate_form,
  validate_edit,
}

-- A request with what its extractors took out of it: the user, and the form.
pub data Call : Type 0 where
  posts_message : MessageRateLimitSettings → MessageForm → Call
  marks_message : ℕ → MessagePatchRequest → Call
  inserts : ℕ → ArticleForm → Call
  edits : ℕ → ArticleEditRequest → Call
  publishes : ℕ → ArticlePublishRequest → Call
  deletes : ℕ → ArticleDeleteRequest → Call
  invites : ℕ → Text → CreateUser → Call
  accepts : AcceptInvitationParams → Call
  manages : ℕ → TotpCall → Call
  changes_password : ℕ → ChangePasswordBody → Call
  sets_role : ℕ → UserRole → Call
  resets : ℕ → Call

unfoldable pub serve : Env → Request → Call → Db → Result Response WebError × Db
unfolding insert_article edit_article publish_article delete_article post_message patch_message
    create_user accept_invitation manage update_user_password set_user_role reset_password
serve env request (posts_message config form) pool = post_message env request pool config form
serve env request (marks_message user message) pool = patch_message env request pool user message
serve env request (inserts user article) pool = insert_article env request pool user article
serve env request (edits user article) pool = edit_article env request pool user article
serve env request (publishes user article) pool = publish_article env request pool user article
serve env request (deletes user article) pool = delete_article env request pool user article
serve env request (invites user base_url new) pool = create_user env request pool user base_url new
serve env request (accepts params) pool = accept_invitation env params pool
serve env request (manages user call) pool = manage env call user pool
serve env request (changes_password user body) pool =
    let (result, after) = update_user_password env body user pool in (map_err auth result, after)
serve env request (sets_role user role) pool = set_user_role env user role pool
serve env request (resets user) pool = reset_password env user pool

-- What the first tables are: no keys, no articles and no invitations, and users that the constraints
-- of their table allow, with roles of the type `user_role`.
pub record IsFirst (pool : Db) : Type 0 where
  pub no_keys : pool.idempotency ≡ []
  pub no_posts : pool.blog_posts ≡ []
  pub no_invitations : pool.invitations ≡ []
  pub users : IsUniqueUsers pool.users
  pub well : all is_well pool.users ≡ true

-- The tables that a sequence of requests can lead to.
pub data Reachable : Db → Type 0 where
  starts : (pool : Db) → IsFirst pool → Reachable pool
  serves :
      (pool : Db) (env : Env) (request : Request) (call : Call)
      → Reachable pool
      → Reachable (serve env request call pool).1
