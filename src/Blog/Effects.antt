-- ===== src/Blog/Effects.antt =====
-- What publishing, editing and deleting answer, and what they do to the table, for a table whose
-- identifiers are unique.
use portfolio_server.Blog.Slug.{get_article_slug}
use portfolio_server.Blog.Post.{process_new_article, collides, new_row, insert_row}
use portfolio_server.Blog.Builder.{PlainPlaceholders, contains-build_update, edited-columns}
use portfolio_server.Blog.Delete.{process_delete_article}
use portfolio_server.Blog.Edit.{process_edit_article, given, edited, build_update, no_fields}
use portfolio_server.Blog.Publish.{process_publish_article, set_published}
use portfolio_server.Prelude.{
  ℕ, ◌≤◌, ◌≡◌, refl, Text, Option, none, List, ok, err, any, count, find?, map_option,
  if◌then◌else◌, arith, text_eq, Bool-cases, inl, find?-update_where, count_of_any, inr,
  count_of_any-false, delete_where, ◌==◌, ◌∷◌, [], ◌||◌, true, contains, false, ◌∙◌, ap, not, text,
  some, unwrap_or, Bool, fun_ext,
}
use portfolio_server.Http.{Response, finish, Json}
use portfolio_server.Errors.Blog.{post_not_found, duplicate_post}
use portfolio_server.Errors.Web.{blog, status, answer_status}
use portfolio_server.Env.{Env, publish_post, delete_post, update_post, insert_post, respond}
use portfolio_server.Db.{Db}
use portfolio_server.Types.Article.{
  ArticleRecordRaw, ArticlePublishRequest, ArticleEditRequest, ArticleDeleteRequest, ArticleForm,
}
use portfolio_server.Blog.Rows.{has_id, by_rows}

-- The two unique columns.
pub record IsUniquePosts (posts : List ArticleRecordRaw) : Type 0 where
  pub ids : (id : ℕ) → count (has_id id) posts ≤ 1
  pub slugs : (slug : Text) → count (λ row. text_eq row.slug slug) posts ≤ 1

-- The article with an identifier, as a reader of the table finds it.
abbrev pub post_at : ℕ → Db → Option ArticleRecordRaw
post_at id db = find? (has_id id) db.blog_posts

by_rows_unique :
    (answer : Response) (id : ℕ) (posts : List ArticleRecordRaw)
    → count (has_id id) posts ≤ 1
    → by_rows answer (count (has_id id) posts)
      ≡ (if any (has_id id) posts then ok answer else err (blog post_not_found))
by_rows_unique answer id posts h = elim (Bool-cases (any (has_id id) posts)) [
  | inl there ↦
      let one : count (has_id id) posts ≡ 1 = omega (arith, count_of_any (has_id id) posts there) in
      rw (there, one)
  | inr missing ↦ rw (missing, count_of_any-false (has_id id) posts missing)
]

status_by_rows :
    (done : Response) (there : Bool)
    → answer_status (if there then ok done else err (blog post_not_found))
      ≡ (if there then done.status else 404)
unfolding status
status_by_rows done true = refl
status_by_rows done false = refl

find?-deleted :
    (id j : ℕ) (posts : List ArticleRecordRaw)
    → find? (has_id j) (delete_where (has_id id) posts)
      ≡ (if j == id then none else find? (has_id j) posts)
find?-deleted id j [] = ground arith
find?-deleted id j (row ∷ posts) = ground (arith, find?-deleted id j posts)

module _ (env : Env) (tx : Db) (unique : IsUniquePosts tx.blog_posts) (j : ℕ) where
  -- Publishing answers 202 where the article exists and 404 where it does not; it sets the flag and
  -- the time of that article, and every other article stays as it was. The identifiers are unique
  -- and the statement reaches the database.
  pub process_publish_article_effect :
      (article : ArticlePublishRequest)
      → env.fault publish_post ≡ none
      → ((process_publish_article env article tx).0 ≡ (
          if any (has_id article.post_id) tx.blog_posts
          then ok (finish 202)
          else err (blog post_not_found)))
        × (answer_status (process_publish_article env article tx).0
            ≡ (if any (has_id article.post_id) tx.blog_posts then 202 else 404))
        × (post_at j (process_publish_article env article tx).1
            ≡ map_option
                (λ row.
                  if row.post_id == article.post_id
                  then record row { published = article.published; updated_at = env.now }
                  else row)
                (post_at j tx))
  unfolding process_publish_article
  process_publish_article_effect article up =
      rw (up, process_publish_article)
        (
          by_rows_unique (finish 202) article.post_id tx.blog_posts (unique.ids article.post_id),
          ap answer_status (
                by_rows_unique (finish 202) article.post_id tx.blog_posts
                  (unique.ids article.post_id))
              ∙ status_by_rows (finish 202) (any (has_id article.post_id) tx.blog_posts),
          find?-update_where (has_id article.post_id) (has_id j) (set_published env article)
              (λ x. refl) tx.blog_posts,
        )

  -- Editing answers 202 where the article exists and 404 where it does not; each column whose field
  -- is given gets the value, the others and every other article stay as they were. Some field is
  -- given, no placeholder holds a capital U, the identifiers are unique and the statement reaches
  -- the database.
  pub process_edit_article_effect :
      (article : ArticleEditRequest)
      → PlainPlaceholders env
      → env.fault update_post ≡ none
      → (given article.title
          || given article.excerpt
          || given article.author
          || given article.sections)
        ≡ true
      → ((process_edit_article env article tx).0 ≡ (
          if any (has_id article.post_id) tx.blog_posts
          then ok (finish 202)
          else err (blog post_not_found)))
        × (answer_status (process_edit_article env article tx).0
            ≡ (if any (has_id article.post_id) tx.blog_posts then 202 else 404))
        × (post_at j (process_edit_article env article tx).1
            ≡ map_option
                (λ row.
                  if row.post_id == article.post_id
                  then record row {
                    title = unwrap_or article.title row.title;
                    excerpt = unwrap_or article.excerpt row.excerpt;
                    author = unwrap_or article.author row.author;
                    sections =
                        unwrap_or (map_option env.sections_to_json article.sections) row.sections;
                    updated_at = env.now;
                  }
                  else row)
                (post_at j tx))
  unfolding process_edit_article
  process_edit_article_effect article plain up some_field =
      let built : contains (build_update env article).sql no_fields ≡ false =
        contains-build_update env plain article ∙ ap not some_field in
      rw (up, built, process_edit_article)
        (
          by_rows_unique (finish 202) article.post_id tx.blog_posts (unique.ids article.post_id),
          ap answer_status (
                by_rows_unique (finish 202) article.post_id tx.blog_posts
                  (unique.ids article.post_id))
              ∙ status_by_rows (finish 202) (any (has_id article.post_id) tx.blog_posts),
          find?-update_where (has_id article.post_id) (has_id j) (edited env article)
                (λ row. ap (λ r. has_id j r) (edited-columns env article row)) tx.blog_posts
              ∙ ap
                  (λ f.
                    map_option (λ row. if has_id article.post_id row then f row else row)
                      (post_at j tx))
                  (fun_ext (edited-columns env article)),
        )

  -- Deleting answers 200 where the article existed and 404 where it did not; afterwards it is gone,
  -- and every other article is as it was. The identifiers are unique and the statement reaches the
  -- database.
  pub process_delete_article_effect :
      (article : ArticleDeleteRequest)
      → env.fault delete_post ≡ none
      → ((process_delete_article env article tx).0 ≡ (
          if any (has_id article.post_id) tx.blog_posts
          then ok (finish 200)
          else err (blog post_not_found)))
        × (answer_status (process_delete_article env article tx).0
            ≡ (if any (has_id article.post_id) tx.blog_posts then 200 else 404))
        × (post_at j (process_delete_article env article tx).1
            ≡ (if j == article.post_id then none else post_at j tx))
  unfolding process_delete_article
  process_delete_article_effect article up =
      rw (up, process_delete_article)
        (
          by_rows_unique (finish 200) article.post_id tx.blog_posts (unique.ids article.post_id),
          ap answer_status (
                by_rows_unique (finish 200) article.post_id tx.blog_posts
                  (unique.ids article.post_id))
              ∙ status_by_rows (finish 200) (any (has_id article.post_id) tx.blog_posts),
          find?-deleted article.post_id j tx.blog_posts,
        )

-- Creating answers 409 and changes nothing where the new identifier or the slug of the title is
-- taken; else it answers 202 and adds the article, unpublished and under that slug, while every
-- other article stays as it was. The statement reaches the database.
pub process_new_article_effect :
    (env : Env) (tx : Db) (j : ℕ) (article : ArticleForm)
    → env.fault insert_post ≡ none
    → let taken =
        any
          (λ old. old.post_id == env.new_uuid || text_eq old.slug (get_article_slug article.title))
          tx.blog_posts in
      let out = process_new_article env article tx in
      (answer_status out.0 ≡ (if taken then 409 else 202))
      × (out.0 ≡ (
          if taken
          then err (blog duplicate_post)
          else ok (
              respond env 202 (
                Json.field
                  (text "message")
                  (Json.str (text "Post received successfully"))
                  (Json.field (text "post_id") (Json.str (env.uuid_text env.new_uuid)) Json.end)))))
      × (post_at j out.1 ≡ (
          if taken
          then post_at j tx
          else if env.new_uuid == j
          then some (record {
            post_id = env.new_uuid;
            title = article.title;
            slug = get_article_slug article.title;
            excerpt = article.excerpt;
            sections = env.sections_to_json article.sections;
            author = article.author;
            published = false;
            created_at = env.now;
            updated_at = env.now;
          })
          else post_at j tx))
unfolding process_new_article text_eq status
process_new_article_effect env tx j article up =
    elim (Bool-cases (any (collides (new_row env article)) tx.blog_posts)) [
      | inl taken ↦ rw (up, taken, process_new_article, insert_row) (refl, refl, refl)
      | inr free ↦ rw (up, free, process_new_article, insert_row) (refl, refl, refl)
    ]
