-- ===== src/Blog/Actions.antt =====
-- The actions on articles, as the idempotency flow runs them, and what holds of each of them.
use portfolio_server.Blog.Builder.{edited-columns}
use portfolio_server.Blog.Unique.{update-IsUniquePosts, delete-IsUniquePosts, insert-IsUniquePosts}
use portfolio_server.Idempotency.Table.{AnswersInRange}
use portfolio_server.Errors.Web.{WebError}
use portfolio_server.Idempotency.Replay.{KeepsKeys}
use portfolio_server.Http.{Response, finish}
use portfolio_server.Blog.Delete.{process_delete_article}
use portfolio_server.Blog.Publish.{process_publish_article, set_published}
use portfolio_server.Blog.Rows.{has_id, by_rows}
use portfolio_server.Db.{Db}
use portfolio_server.Blog.Edit.{process_edit_article, build_update, no_fields, edited}
use portfolio_server.Env.{Env, publish_post, delete_post, insert_post, update_post}
use portfolio_server.Blog.Post.{collides, process_new_article, new_row, insert_row}
use portfolio_server.Blog.Effects.{IsUniquePosts}
use portfolio_server.Prelude.{
  ℕ, ◌≤◌, ◌≡◌, refl, any, count, arith, inl, Bool-cases, Result, inr, Option-cases, contains, ◌<◌,
  ok, suc, zero, ap,
}
use portfolio_server.Types.Article.{
  ArticleForm, ArticleEditRequest, ArticlePublishRequest, ArticleDeleteRequest, ArticleRecordRaw,
}

-- The actions on articles, as the idempotency flow runs them.
pub data BlogAction : Type 0 where
  create : ArticleForm → BlogAction
  edit : ArticleEditRequest → BlogAction
  publish : ArticlePublishRequest → BlogAction
  delete : ArticleDeleteRequest → BlogAction

unfoldable pub run : Env → BlogAction → Db → Result Response WebError × Db
run env (create a) = process_new_article env a
run env (edit a) = process_edit_article env a
run env (publish a) = process_publish_article env a
run env (delete a) = process_delete_article env a

insert_row-IsUniquePosts :
    (env : Env) (row : ArticleRecordRaw) (tx : Db)
    → IsUniquePosts tx.blog_posts
    → IsUniquePosts (insert_row env row tx).1.blog_posts
unfolding insert_row
insert_row-IsUniquePosts env row tx u = elim (Option-cases (env.fault insert_post)) [
  | inr (e, down) ↦ rw (down, insert_row) u
  | inl up ↦ elim (Bool-cases (any (collides row) tx.blog_posts)) [
    | inl taken ↦ rw (up, taken, insert_row) u
    | inr free ↦ rw (up, free, insert_row) (insert-IsUniquePosts row tx.blog_posts free u)
  ]
]

create-IsUniquePosts :
    (env : Env) (a : ArticleForm) (tx : Db)
    → IsUniquePosts tx.blog_posts
    → IsUniquePosts (process_new_article env a tx).1.blog_posts
unfolding process_new_article
create-IsUniquePosts env a tx u = insert_row-IsUniquePosts env (new_row env a) tx u

edit-IsUniquePosts :
    (env : Env) (a : ArticleEditRequest) (tx : Db)
    → IsUniquePosts tx.blog_posts
    → IsUniquePosts (process_edit_article env a tx).1.blog_posts
unfolding process_edit_article
edit-IsUniquePosts env a tx u = elim (Bool-cases (contains (build_update env a).sql no_fields)) [
  | inl nothing ↦ rw (nothing, process_edit_article) u
  | inr something ↦ elim (Option-cases (env.fault update_post)) [
    | inr (e, down) ↦ rw (something, down, process_edit_article) u
    | inl up ↦
        rw (something, up, process_edit_article)
          (update-IsUniquePosts (has_id a.post_id) (edited env a) tx.blog_posts
            (λ row. (
              ap (λ r. r.post_id) (edited-columns env a row),
              ap (λ r. r.slug) (edited-columns env a row),
            ))
            u)
  ]
]

publish-IsUniquePosts :
    (env : Env) (a : ArticlePublishRequest) (tx : Db)
    → IsUniquePosts tx.blog_posts
    → IsUniquePosts (process_publish_article env a tx).1.blog_posts
unfolding process_publish_article
publish-IsUniquePosts env a tx u = elim (Option-cases (env.fault publish_post)) [
  | inr (e, down) ↦ rw (down, process_publish_article) u
  | inl up ↦
      rw (up, process_publish_article)
        (update-IsUniquePosts (has_id a.post_id) (set_published env a) tx.blog_posts
          (λ row. (refl, refl)) u)
]

remove-IsUniquePosts :
    (env : Env) (a : ArticleDeleteRequest) (tx : Db)
    → IsUniquePosts tx.blog_posts
    → IsUniquePosts (process_delete_article env a tx).1.blog_posts
unfolding process_delete_article
remove-IsUniquePosts env a tx u = elim (Option-cases (env.fault delete_post)) [
  | inr (e, down) ↦ rw (down, process_delete_article) u
  | inl up ↦
      rw (up, process_delete_article) (delete-IsUniquePosts (has_id a.post_id) tx.blog_posts u)
]

-- Whatever the database does, creating, editing, publishing and deleting keep identifiers and slugs
-- unique.
pub run-IsUniquePosts :
    (env : Env) (action : BlogAction) (tx : Db)
    → IsUniquePosts tx.blog_posts
    → IsUniquePosts (run env action tx).1.blog_posts
unfolding run
run-IsUniquePosts env (create a) tx u = create-IsUniquePosts env a tx u
run-IsUniquePosts env (edit a) tx u = edit-IsUniquePosts env a tx u
run-IsUniquePosts env (publish a) tx u = publish-IsUniquePosts env a tx u
run-IsUniquePosts env (delete a) tx u = remove-IsUniquePosts env a tx u

pub run-KeepsKeys : (env : Env) (action : BlogAction) → KeepsKeys (run env action)
unfolding run process_new_article process_edit_article process_publish_article
    process_delete_article
run-KeepsKeys env (create a) tx = ground arith
run-KeepsKeys env (edit a) tx = ground arith
run-KeepsKeys env (publish a) tx = ground arith
run-KeepsKeys env (delete a) tx = ground arith

by_rows_in_range :
    (answer : Response) (n : ℕ) (r : Response)
    → (100 ≤ answer.status) × (answer.status < 1000)
    → by_rows answer n ≡ ok r
    → (100 ≤ r.status) × (r.status < 1000)
by_rows_in_range answer zero r h e = ground arith
by_rows_in_range answer (suc zero) r h e = ground arith
by_rows_in_range answer (suc (suc n)) r h e = ground arith

pub run-AnswersInRange : (env : Env) (action : BlogAction) → AnswersInRange (run env action)
unfolding run process_new_article process_edit_article process_publish_article
    process_delete_article
run-AnswersInRange env (create a) tx tx' r e = ground arith
run-AnswersInRange env (edit a) tx tx' r e =
    ground (
      arith,
      by_rows_in_range (finish 202) (count (has_id a.post_id) tx.blog_posts) r (omega arith),
    )
run-AnswersInRange env (publish a) tx tx' r e =
    ground (
      arith,
      by_rows_in_range (finish 202) (count (has_id a.post_id) tx.blog_posts) r (omega arith),
    )
run-AnswersInRange env (delete a) tx tx' r e =
    ground (
      arith,
      by_rows_in_range (finish 200) (count (has_id a.post_id) tx.blog_posts) r (omega arith),
    )
