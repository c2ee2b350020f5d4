-- ===== src/Blog/Post.antt =====
-- src/routes/admin/dashboard/blog/post.rs
use portfolio_server.Prelude.{
  ℕ, Text, text, Bool, false, ◌==◌, ◌||◌, any, text_eq, if◌then◌else◌, none, some, Result, ok, err,
  ◌∷◌,
}
use portfolio_server.Http.{Json, Request, Response}
use portfolio_server.Errors.Sql.{SqlError, database, sqlx}
use portfolio_server.Errors.Blog.{duplicate_post, unexpected_error}
use portfolio_server.Errors.Web.{WebError, blog, idempotency}
use portfolio_server.Env.{Env, insert_post, respond, unique_violation}
use portfolio_server.Db.{Db}
use portfolio_server.Types.Article.{ArticleForm, ArticleRecordRaw, validate_form}
use portfolio_server.Blog.Slug.{get_article_slug}
use portfolio_server.Idempotency.Execute.{execute_idempotent}

-- The serialised `ArticleResponse`.
abbrev pub article_response : Env → Text → ℕ → Json
article_response env message post_id =
    Json.field (text "message") (Json.str message)
      (Json.field (text "post_id") (Json.str (env.uuid_text post_id)) Json.end)

-- The row of the INSERT.
abbrev pub new_row : Env → ArticleForm → ArticleRecordRaw
new_row env article = record {
  post_id = env.new_uuid;
  title = article.title;
  slug = get_article_slug article.title;
  excerpt = article.excerpt;
  sections = env.sections_to_json article.sections;
  author = article.author;
  published = false;
  created_at = env.now;
  updated_at = env.now;
}

-- The primary key and the unique column `slug` of the table.
abbrev pub collides : ArticleRecordRaw → ArticleRecordRaw → Bool
collides new old = old.post_id == new.post_id || text_eq old.slug new.slug

-- `execute` of the INSERT, and what the table holds afterwards.
unfoldable pub insert_row : Env → ArticleRecordRaw → Db → Result (Unit {0}) SqlError × Db
insert_row env row tx = elim (env.fault insert_post) [
  | some e ↦ (err e, tx)
  | none ↦
      if any (collides row) tx.blog_posts
      then (err (unique_violation env), tx)
      else (ok tt, record tx { blog_posts = row ∷ tx.blog_posts })
]

-- `db_err.code().as_deref() == Some("23505")`
abbrev pub is_unique_violation : SqlError → Bool
is_unique_violation (database (some code) message) = text_eq code (text "23505")
is_unique_violation (database none message) = false
is_unique_violation _ = false

abbrev pub insert_answer : Env → Result (Unit {0}) SqlError → Result Response WebError
insert_answer env (ok _) =
    ok (respond env 202 (article_response env (text "Post received successfully") env.new_uuid))
insert_answer env (err e) =
    if is_unique_violation e
    then err (blog duplicate_post)
    else err (blog (unexpected_error (sqlx e)))

unfoldable pub process_new_article : Env → ArticleForm → Db → Result Response WebError × Db
unfolding insert_row
process_new_article env article tx =
    let (result, tx') = insert_row env (new_row env article) tx in (insert_answer env result, tx')

unfoldable pub insert_article : Env → Request → Db → ℕ → ArticleForm → Result Response WebError × Db
insert_article env request pool user_id article = elim (validate_form article) [
  | err e ↦ (err (blog e), pool)
  | ok _ ↦
      execute_idempotent idempotency env request pool (some user_id)
        (process_new_article env article)
]
