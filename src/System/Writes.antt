-- ===== src/System/Writes.antt =====
-- What one request of src/startup.rs can do to the articles, the users and the invitations.
use portfolio_server.Users.Well.{is_well}
use portfolio_server.Idempotency.Outcome.{execute_idempotent-err, execute_idempotent-ok, claimed}
use portfolio_server.Errors.Web.{WebError, idempotency}
use portfolio_server.Blog.Effects.{IsUniquePosts}
use portfolio_server.Types.Article.{ArticleRecordRaw}
use portfolio_server.Http.{Request, Response}
use portfolio_server.Idempotency.Execute.{Action, execute_idempotent, operation_of}
use portfolio_server.Env.{Env}
use portfolio_server.Db.{Db, UserRow, InvitationRow}
use portfolio_server.Prelude.{
  List, ℕ, false, ◌≡◌, Option, find?, true, some, any, ◌∷◌, update_where, Result-cases, ok, err,
  inl, inr, ap,
}
use portfolio_server.Users.Rows.{has_user}
use portfolio_server.Users.Accept.{consume, has_invitation, same_user}
use portfolio_server.Users.Invite.{clashes}

pub record Tables : Type 0 where
  pub posts : List ArticleRecordRaw
  pub users : List UserRow
  pub invitations : List InvitationRow

abbrev pub tables : Db → Tables
tables db = record { posts = db.blog_posts; users = db.users; invitations = db.invitations }

-- An UPDATE of the rows of one user, after which each row that was found is as good as before.
pub record UpdatesUser (id : ℕ) (f : UserRow → UserRow) (users : List UserRow) : Type 0 where
  pub ids : (row : UserRow) → (f row).user_id ≡ row.user_id
  pub names : (row : UserRow) → (f row).username ≡ row.username
  pub well :
      (row : UserRow)
      → find? (has_user id) users ≡ some row
      → is_well row ≡ true
      → is_well (f row) ≡ true

-- The five ways to write: the articles, an invitation, an acceptance of one, a user, and nothing.
pub data Written (env : Env) (before : Tables) : Tables → Type 0 where
  nothing : Written env before before
  articles :
      (posts : List ArticleRecordRaw)
      → (IsUniquePosts before.posts → IsUniquePosts posts)
      → Written env before (record before { posts = posts })
  invitation :
      (row : InvitationRow)
      → any (clashes row) before.invitations ≡ false
      → Written env before (record before { invitations = row ∷ before.invitations })
  acceptance :
      (id : ℕ) (user : UserRow)
      → any (same_user user) before.users ≡ false
      → is_well user ≡ true
      → Written env before (record before {
        users = user ∷ before.users;
        invitations = update_where (has_invitation id) (consume env) before.invitations;
      })
  account :
      (id : ℕ) (f : UserRow → UserRow)
      → UpdatesUser id f before.users
      → Written env before (record before { users = update_where (has_user id) f before.users })

-- An action, and the flow around it: the claim and the response are rows of another table.
abbrev pub Writes : Env → Action WebError → Type 0
Writes env action = (tx : Db) → Written env (tables tx) (tables (action tx).1)

module _ (env : Env) (request : Request) (pool : Db) (u : Option ℕ) (action : Action WebError) where
  abbrev after : Db
  after = (execute_idempotent idempotency env request pool u action).1

  answered-Written :
      (r : Response)
      → execute_idempotent idempotency env request pool u action ≡ (ok r, after)
      → Writes env action
      → Written env (tables pool) (tables after)
  answered-Written r h writes =
      let (key, valid, what) =
        execute_idempotent-ok idempotency env request pool after u action r h in
      elim what [
        | inl was ↦ rw was.unchanged nothing
        | inr was ↦
            rw was.committed
              (rw was.ran at (writes (claimed env pool key u (operation_of request))))
      ]

  pub failed_pool :
      (end : Db) (e : WebError)
      → execute_idempotent idempotency env request pool u action ≡ (err e, end)
      → end ≡ pool
  failed_pool end e h = execute_idempotent-err idempotency env request pool end u action e h

  pub execute_idempotent-Written : Writes env action → Written env (tables pool) (tables after)
  execute_idempotent-Written writes =
      let out = execute_idempotent idempotency env request pool u action in
      elim (Result-cases out.0) [
        | inl (r, e) ↦ answered-Written r (ap (λ x. (x, out.1)) e) writes
        | inr (e, failed) ↦ rw (failed_pool out.1 e (ap (λ x. (x, out.1)) failed)) nothing
      ]
