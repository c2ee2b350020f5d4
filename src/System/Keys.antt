-- ===== src/System/Keys.antt =====
-- What the requests of src/startup.rs leave in the table of keys.
use portfolio_server.Types.Article.{validate_form, validate_edit}
use portfolio_server.Messages.Effects.{process_patch_message-KeepsKeys}
use portfolio_server.Contact.Spacing.{
  process_new_message-KeepsKeys, process_new_message-AnswersInRange,
}
use portfolio_server.Users.Admin.{set_user_role, reset_password}
use portfolio_server.Users.Totp.Refines.{manage-Moved}
use portfolio_server.Contact.Post.{post_message, process_new_message}
use portfolio_server.Blog.Delete.{delete_article}
use portfolio_server.Blog.Publish.{publish_article}
use portfolio_server.Users.Invitations.{accept_invitation-Outcome}
use portfolio_server.Blog.Edit.{edit_article}
use portfolio_server.Users.Totp.Machine.{TotpCall, manage}
use portfolio_server.Auth.ChangePassword.{
  ChangePasswordBody, update_user_password, update_user_password_outcome,
}
use portfolio_server.Blog.Post.{insert_article}
use portfolio_server.Users.Rows.{has_user}
use portfolio_server.Users.Accept.{AcceptInvitationParams, accept_invitation}
use portfolio_server.Errors.Web.{WebError}
use portfolio_server.Idempotency.Replay.{KeepsKeys}
use portfolio_server.Idempotency.Execute.{Action, execute_idempotent}
use portfolio_server.Users.Well.{manage-missing}
use portfolio_server.Blog.Actions.{
  BlogAction, run, run-KeepsKeys, run-AnswersInRange, create, edit, publish, delete,
}
use portfolio_server.Http.{Response, Request}
use portfolio_server.Idempotency.Table.{
  IsConsistent, AnswersInRange, execute_idempotent-IsConsistent,
}
use portfolio_server.Messages.Patch.{
  process_patch_message, MessagePatchRequest, by_patched, is_message, patch_message,
}
use portfolio_server.Users.Invite.{
  process_create_new_user, insert_invitation_row, CreateUser, create_user, validate_user,
}
use portfolio_server.Db.{Db}
use portfolio_server.Prelude.{
  ℕ, Text, Option, ◌≡◌, arith, ok, count, ◌≤◌, some, Result-cases, inl, ◌<◌, suc, ap, zero, inr,
  Option-cases, refl, find?, none,
}
use portfolio_server.Env.{Env}
use portfolio_server.System.{
  idempotency, serve, posts_message, marks_message, inserts, edits, publishes, deletes, invites,
  accepts, manages, changes_password, sets_role, resets, Call,
}
use portfolio_server.System.Writes.{failed_pool}

by_patched_in_range :
    (n : ℕ) (r : Response) → by_patched n ≡ ok r → (100 ≤ r.status) × (r.status < 1000)
by_patched_in_range zero r e = ground arith
by_patched_in_range (suc zero) r e = ground arith
by_patched_in_range (suc (suc n)) r e = ground arith

process_patch_message-AnswersInRange :
    (env : Env) (message : MessagePatchRequest) → AnswersInRange (process_patch_message env message)
unfolding process_patch_message
process_patch_message-AnswersInRange env message tx tx' r e =
    ground (arith, by_patched_in_range (count (is_message message.message_id) tx.messages) r)

process_create_new_user-KeepsKeys :
    (env : Env) (base_url : Text) (new : CreateUser)
    → KeepsKeys (process_create_new_user env base_url new)
unfolding process_create_new_user insert_invitation_row
process_create_new_user-KeepsKeys env base_url new tx = ground arith

process_create_new_user-AnswersInRange :
    (env : Env) (base_url : Text) (new : CreateUser)
    → AnswersInRange (process_create_new_user env base_url new)
unfolding process_create_new_user insert_invitation_row
process_create_new_user-AnswersInRange env base_url new tx tx' r e = ground arith

module _ (env : Env) (request : Request) (pool : Db) (consistent : IsConsistent pool) where
  flow-IsConsistent :
      (u : Option ℕ) (action : Action WebError)
      → KeepsKeys action
      → AnswersInRange action
      → IsConsistent (execute_idempotent idempotency env request pool u action).1
  flow-IsConsistent u action keeps range =
      let out = execute_idempotent idempotency env request pool u action in
      elim (Result-cases out.0) [
        | inl (r, e) ↦
            execute_idempotent-IsConsistent idempotency env request pool out.1 u action r
              (ap (λ x. (x, out.1)) e) keeps range consistent
        | inr (e, failed) ↦
            rw (failed_pool env request pool u action out.1 e (ap (λ x. (x, out.1)) failed))
              consistent
      ]

  run-IsConsistent :
      (user : ℕ) (action : BlogAction)
      → IsConsistent
          (execute_idempotent idempotency env request pool (some user) (run env action)).1
  run-IsConsistent user action =
      flow-IsConsistent (some user) (run env action) (run-KeepsKeys env action)
        (run-AnswersInRange env action)

-- A handler that does not go through the flow does not write the table of keys.
same_keys :
    (before after : Db)
    → after.idempotency ≡ before.idempotency
    → IsConsistent before
    → IsConsistent after
same_keys before after same consistent = record {
  answered = rw same consistent.answered;
  unique = λ u key op. rw same (consistent.unique u key op);
}

accept_invitation-idempotency :
    (env : Env) (params : AcceptInvitationParams) (pool : Db)
    → (accept_invitation env params pool).1.idempotency ≡ pool.idempotency
accept_invitation-idempotency env params pool = elim (accept_invitation-Outcome env params pool) [
  | inl (e, failed) ↦ ap (λ o. o.1.idempotency) failed
  | inr (answered, was) ↦ ap (λ db. db.idempotency) was.effect
]

manage-idempotency :
    (env : Env) (call : TotpCall) (id : ℕ) (pool : Db)
    → (manage env call id pool).1.idempotency ≡ pool.idempotency
manage-idempotency env call id pool = elim (Option-cases (find? (has_user id) pool.users)) [
  | inl missing ↦ ap (λ db. db.idempotency) (manage-missing env call id pool missing)
  | inr (row, here) ↦ elim (manage-Moved env call id pool row here).change [
    | inl same ↦ ap (λ db. db.idempotency) same
    | inr (f, keeps, is, changed) ↦ ap (λ db. db.idempotency) changed
  ]
]

update_user_password-idempotency :
    (env : Env) (body : ChangePasswordBody) (id : ℕ) (pool : Db)
    → (update_user_password env body id pool).1.idempotency ≡ pool.idempotency
update_user_password-idempotency env body id pool =
    let out = update_user_password env body id pool in
    elim (update_user_password_outcome env body id pool out.1 out.0 refl) [
      | inl (e, failed, same) ↦ ap (λ db. db.idempotency) same
      | inr (username, v, hash, named, right, hashed, changed, answered) ↦
          ap (λ db. db.idempotency) changed
    ]

pub serve-IsConsistent :
    (env : Env) (request : Request) (call : Call) (pool : Db)
    → IsConsistent pool
    → IsConsistent (serve env request call pool).1
unfolding serve insert_article edit_article publish_article delete_article post_message
    patch_message run create_user set_user_role reset_password
serve-IsConsistent env request (posts_message config form) pool c =
    flow-IsConsistent env request pool c none (process_new_message env config form)
      (process_new_message-KeepsKeys env config form)
      (process_new_message-AnswersInRange env config form)
serve-IsConsistent env request (marks_message user message) pool c =
    flow-IsConsistent env request pool c (some user) (process_patch_message env message)
      (process_patch_message-KeepsKeys env message)
      (process_patch_message-AnswersInRange env message)
serve-IsConsistent env request (inserts user article) pool c =
    elim (Result-cases (validate_form article)) [
      | inr (e, refused) ↦ rw (refused, insert_article) c
      | inl (_, valid) ↦
          rw (valid, insert_article) (run-IsConsistent env request pool c user (create article))
    ]
serve-IsConsistent env request (edits user article) pool c =
    elim (Result-cases (validate_edit article)) [
      | inr (e, refused) ↦ rw (refused, edit_article) c
      | inl (_, valid) ↦
          rw (valid, edit_article) (run-IsConsistent env request pool c user (edit article))
    ]
serve-IsConsistent env request (publishes user article) pool c =
    run-IsConsistent env request pool c user (publish article)
serve-IsConsistent env request (deletes user article) pool c =
    run-IsConsistent env request pool c user (delete article)
serve-IsConsistent env request (invites user base_url new) pool c =
    elim (Result-cases (validate_user env new)) [
      | inr (e, refused) ↦ rw (refused, create_user) c
      | inl (_, valid) ↦
          rw (valid, create_user)
            (flow-IsConsistent env request pool c (some user)
              (process_create_new_user env base_url new)
              (process_create_new_user-KeepsKeys env base_url new)
              (process_create_new_user-AnswersInRange env base_url new))
    ]
serve-IsConsistent env request (accepts params) pool c =
    same_keys pool _ (accept_invitation-idempotency env params pool) c
serve-IsConsistent env request (manages user call) pool c =
    same_keys pool _ (manage-idempotency env call user pool) c
serve-IsConsistent env request (changes_password user body) pool c =
    same_keys pool _ (update_user_password-idempotency env body user pool) c
serve-IsConsistent env request (sets_role user role) pool c =
    same_keys pool (set_user_role env user role pool).1 (ground arith) c
serve-IsConsistent env request (resets user) pool c =
    same_keys pool (reset_password env user pool).1 (ground arith) c
