-- ===== src/System/Calls.antt =====
-- What each request of src/startup.rs writes.
use portfolio_server.Types.Article.{validate_form, validate_edit}
use portfolio_server.Contact.Form.{MessageForm}
use portfolio_server.Idempotency.Execute.{execute_idempotent}
use portfolio_server.Db.{Db}
use portfolio_server.Messages.Patch.{process_patch_message, patch_message, MessagePatchRequest}
use portfolio_server.Http.{Request}
use portfolio_server.Contact.Post.{
  process_new_message, post_message, query_rate, insert_validated, insert_message_row,
  MessageRateLimitSettings,
}
use portfolio_server.Users.Totp.Machine.{TotpCall, manage}
use portfolio_server.Users.Admin.{set_user_role, reset_password, require, set_role}
use portfolio_server.Blog.Actions.{
  BlogAction, run, run-IsUniquePosts, create, edit, publish, delete,
}
use portfolio_server.Types.User.{UserRole}
use portfolio_server.Auth.ChangePassword.{
  update_user_password_outcome, ChangePasswordBody, update_user_password,
}
use portfolio_server.Users.Totp.Refines.{manage-Moved}
use portfolio_server.Users.Well.{manage-missing, is_well, Moved-is_well, is_user_role-to_string}
use portfolio_server.Users.Accept.{new_user, AcceptInvitationParams, accept_invitation}
use portfolio_server.Users.Rows.{has_user}
use portfolio_server.Env.{insert_invitation, Env, require_change, update_role}
use portfolio_server.Prelude.{
  find?, inr, Bool-cases, any, arith, Text, ℕ, Option-cases, inl, some, ◌≡◌, false, refl, true,
  subst, none, Result-cases, ap, ◌∙◌,
}
use portfolio_server.Blog.Delete.{process_delete_article, delete_article}
use portfolio_server.Users.Invitations.{accept_invitation-Outcome}
use portfolio_server.Blog.Publish.{process_publish_article, publish_article}
use portfolio_server.Blog.Edit.{process_edit_article, edit_article}
use portfolio_server.Blog.Post.{process_new_article, insert_row, insert_article}
use portfolio_server.Users.Invite.{
  process_create_new_user, insert_invitation_row, clashes, new_invitation, CreateUser, create_user,
  validate_user,
}
use portfolio_server.System.{
  Call, serve, posts_message, marks_message, inserts, edits, publishes, deletes, invites, accepts,
  manages, changes_password, sets_role, resets, idempotency,
}
use portfolio_server.System.Writes.{
  Written, Writes, tables, nothing, articles, invitation, acceptance, account,
  execute_idempotent-Written,
}

process_new_message-Writes :
    (env : Env) (config : MessageRateLimitSettings) (form : MessageForm)
    → Writes env (process_new_message env config form)
unfolding process_new_message query_rate insert_validated insert_message_row
process_new_message-Writes env config form tx =
    subst (Written env (tables tx)) {x = tables tx} (ground arith) nothing

process_patch_message-Writes :
    (env : Env) (message : MessagePatchRequest) → Writes env (process_patch_message env message)
unfolding process_patch_message
process_patch_message-Writes env message tx =
    subst (Written env (tables tx)) {x = tables tx} (ground arith) nothing

run-accounts :
    (env : Env) (action : BlogAction) (tx : Db)
    → ((run env action tx).1.users ≡ tx.users)
      × ((run env action tx).1.invitations ≡ tx.invitations)
unfolding run process_new_article process_edit_article process_publish_article
    process_delete_article insert_row
run-accounts env (create a) tx = (ground arith, ground arith)
run-accounts env (edit a) tx = (ground arith, ground arith)
run-accounts env (publish a) tx = (ground arith, ground arith)
run-accounts env (delete a) tx = (ground arith, ground arith)

run-Writes : (env : Env) (action : BlogAction) → Writes env (run env action)
run-Writes env action tx =
    let (users, invitations) = run-accounts env action tx in
    rw (users, invitations)
      (articles (run env action tx).1.blog_posts (run-IsUniquePosts env action tx))

process_create_new_user-Writes :
    (env : Env) (base_url : Text) (new : CreateUser)
    → Writes env (process_create_new_user env base_url new)
unfolding process_create_new_user insert_invitation_row
process_create_new_user-Writes env base_url new tx =
    elim (Option-cases (env.fault insert_invitation)) [
      | inr (e, down) ↦ rw (down, process_create_new_user, insert_invitation_row) nothing
      | inl up ↦ elim (Bool-cases (any (clashes (new_invitation env new)) tx.invitations)) [
        | inl taken ↦ rw (up, taken, process_create_new_user, insert_invitation_row) nothing
        | inr free ↦
            rw (up, free, process_create_new_user, insert_invitation_row)
              (invitation (new_invitation env new) free)
      ]
    ]

accept_invitation-Written :
    (env : Env) (params : AcceptInvitationParams) (pool : Db)
    → Written env (tables pool) (tables (accept_invitation env params pool).1)
accept_invitation-Written env params pool = elim (accept_invitation-Outcome env params pool) [
  | inl (e, failed) ↦ rw failed nothing
  | inr (answered, was) ↦ rw was.effect (
      acceptance was.invitation.id (new_user env params.username was.hash was.invitation) was.fresh
        (ground (arith, was.role)))
]

manage-Written :
    (env : Env) (call : TotpCall) (id : ℕ) (pool : Db)
    → Written env (tables pool) (tables (manage env call id pool).1)
manage-Written env call id pool = elim (Option-cases (find? (has_user id) pool.users)) [
  | inl missing ↦ rw (manage-missing env call id pool missing) nothing
  | inr (row, here) ↦
      let moved = manage-Moved env call id pool row here in
      elim moved.change [
        | inl same ↦ rw same nothing
        | inr (f, keeps, is, changed) ↦ rw changed (
            account id f (record {
              ids = keeps.ids;
              names = keeps.names;
              well = λ x found.
                  let one : row ≡ x = ground (arith, here, found) in
                  let kept : is_well row ≡ true → is_well (f row) ≡ true = λ good.
                    rw is at (Moved-is_well moved (ap (λ r. r.role) is ∙ keeps.roles row) good) in
                  subst (λ r. is_well r ≡ true → is_well (f r) ≡ true) one kept;
            }))
      ]
]

update_user_password-Written :
    (env : Env) (body : ChangePasswordBody) (id : ℕ) (pool : Db)
    → Written env (tables pool) (tables (update_user_password env body id pool).1)
update_user_password-Written env body id pool =
    let out = update_user_password env body id pool in
    elim (update_user_password_outcome env body id pool out.1 out.0 refl) [
      | inl (e, failed, same) ↦ rw same nothing
      | inr (username, v, hash, named, right, hashed, changed, answered) ↦ rw changed (
          account id (λ row. record row { password_hash = hash; must_change_password = false })
            (record { ids = λ row. refl; names = λ row. refl; well = λ row found good. good }))
    ]

set_user_role-Written :
    (env : Env) (id : ℕ) (role : UserRole) (pool : Db)
    → Written env (tables pool) (tables (set_user_role env id role pool).1)
unfolding set_user_role
set_user_role-Written env id role pool = elim (Option-cases (env.fault update_role)) [
  | inr (e, down) ↦ rw (down, set_user_role) nothing
  | inl up ↦
      rw (up, set_user_role)
        (account id (set_role role) (record {
          ids = λ row. refl;
          names = λ row. refl;
          well = λ row found good. ground (arith, is_user_role-to_string role);
        }))
]

reset_password-Written :
    (env : Env) (id : ℕ) (pool : Db)
    → Written env (tables pool) (tables (reset_password env id pool).1)
unfolding reset_password
reset_password-Written env id pool = elim (Option-cases (env.fault require_change)) [
  | inr (e, down) ↦ rw (down, reset_password) nothing
  | inl up ↦
      rw (up, reset_password)
        (account id require
          (record { ids = λ row. refl; names = λ row. refl; well = λ row found good. good }))
]

run-Written :
    (env : Env) (request : Request) (pool : Db) (user : ℕ) (action : BlogAction)
    → Written env
        (tables pool)
        (tables (execute_idempotent idempotency env request pool (some user) (run env action)).1)
run-Written env request pool user action =
    execute_idempotent-Written env request pool (some user) (run env action) (run-Writes env action)

-- Every request, answered or failed, writes in one of the five ways.
pub serve-Written :
    (env : Env) (request : Request) (call : Call) (pool : Db)
    → Written env (tables pool) (tables (serve env request call pool).1)
unfolding serve insert_article edit_article publish_article delete_article post_message
    patch_message run create_user
serve-Written env request (posts_message config form) pool =
    execute_idempotent-Written env request pool none (process_new_message env config form)
      (process_new_message-Writes env config form)
serve-Written env request (marks_message user message) pool =
    execute_idempotent-Written env request pool (some user) (process_patch_message env message)
      (process_patch_message-Writes env message)
serve-Written env request (inserts user article) pool =
    elim (Result-cases (validate_form article)) [
      | inr (e, refused) ↦ rw (refused, insert_article) nothing
      | inl (_, valid) ↦
          rw (valid, insert_article) (run-Written env request pool user (create article))
    ]
serve-Written env request (edits user article) pool = elim (Result-cases (validate_edit article)) [
  | inr (e, refused) ↦ rw (refused, edit_article) nothing
  | inl (_, valid) ↦ rw (valid, edit_article) (run-Written env request pool user (edit article))
]
serve-Written env request (publishes user article) pool =
    run-Written env request pool user (publish article)
serve-Written env request (deletes user article) pool =
    run-Written env request pool user (delete article)
serve-Written env request (invites user base_url new) pool =
    elim (Result-cases (validate_user env new)) [
      | inr (e, refused) ↦ rw (refused, create_user) nothing
      | inl (_, valid) ↦
          rw (valid, create_user)
            (execute_idempotent-Written env request pool (some user)
              (process_create_new_user env base_url new)
              (process_create_new_user-Writes env base_url new))
    ]
serve-Written env request (accepts params) pool = accept_invitation-Written env params pool
serve-Written env request (manages user call) pool = manage-Written env call user pool
serve-Written env request (changes_password user body) pool =
    update_user_password-Written env body user pool
serve-Written env request (sets_role user role) pool = set_user_role-Written env user role pool
serve-Written env request (resets user) pool = reset_password-Written env user pool
