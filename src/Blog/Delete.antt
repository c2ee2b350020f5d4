-- ===== src/Blog/Delete.antt =====
-- src/routes/admin/dashboard/blog/delete.rs
use portfolio_server.Prelude.{ℕ, none, some, Result, err, count, delete_where}
use portfolio_server.Http.{Request, Response, finish}
use portfolio_server.Errors.Sql.{sqlx}
use portfolio_server.Errors.Blog.{unexpected_error}
use portfolio_server.Errors.Web.{WebError, blog, idempotency}
use portfolio_server.Env.{Env, delete_post}
use portfolio_server.Db.{Db}
use portfolio_server.Types.Article.{ArticleDeleteRequest}
use portfolio_server.Blog.Rows.{has_id, by_rows}
use portfolio_server.Idempotency.Execute.{execute_idempotent}

unfoldable pub process_delete_article :
    Env → ArticleDeleteRequest → Db → Result Response WebError × Db
process_delete_article env article tx = elim (env.fault delete_post) [
  | some e ↦ (err (blog (unexpected_error (sqlx e))), tx)
  | none ↦ (
    by_rows (finish 200) (count (has_id article.post_id) tx.blog_posts),
    record tx { blog_posts = delete_where (has_id article.post_id) tx.blog_posts },
  )
]

unfoldable pub delete_article :
    Env → Request → Db → ℕ → ArticleDeleteRequest → Result Response WebError × Db
delete_article env request pool user_id article =
    execute_idempotent idempotency env request pool (some user_id)
      (process_delete_article env article)
