-- ===== src/Blog/Publish.antt =====
-- `publish_article` of src/routes/admin/dashboard/blog/patch.rs
use portfolio_server.Prelude.{ℕ, none, some, Result, err, count, update_where}
use portfolio_server.Http.{Request, Response, finish}
use portfolio_server.Errors.Sql.{sqlx}
use portfolio_server.Errors.Blog.{unexpected_error}
use portfolio_server.Errors.Web.{WebError, blog, idempotency}
use portfolio_server.Env.{Env, publish_post}
use portfolio_server.Db.{Db}
use portfolio_server.Types.Article.{ArticleRecordRaw, ArticlePublishRequest}
use portfolio_server.Blog.Rows.{has_id, by_rows}
use portfolio_server.Idempotency.Execute.{execute_idempotent}

abbrev pub set_published : Env → ArticlePublishRequest → ArticleRecordRaw → ArticleRecordRaw
set_published env article row = record row { published = article.published; updated_at = env.now }

unfoldable pub process_publish_article :
    Env → ArticlePublishRequest → Db → Result Response WebError × Db
process_publish_article env article tx = elim (env.fault publish_post) [
  | some e ↦ (err (blog (unexpected_error (sqlx e))), tx)
  | none ↦ (
    by_rows (finish 202) (count (has_id article.post_id) tx.blog_posts),
    record tx {
      blog_posts = update_where (has_id article.post_id) (set_published env article) tx.blog_posts;
    },
  )
]

unfoldable pub publish_article :
    Env → Request → Db → ℕ → ArticlePublishRequest → Result Response WebError × Db
publish_article env request pool user_id article =
    execute_idempotent idempotency env request pool (some user_id)
      (process_publish_article env article)
