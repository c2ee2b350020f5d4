-- ===== src/Blog/List.antt =====
-- src/routes/blog/get.rs. The answer has status 200 and the record that is given back for its body.
use portfolio_server.Prelude.{
  ℕ, pos, Text, text, text_eq, Bool, true, false, not, ◌&&◌, ◌||◌, List, [], ◌∷◌, length, filter,
  Option, none, some, unwrap_or, is_some, Result, ok, err, and_then, order_desc, parse_i64,
  parse_bool, if◌then◌else◌,
}
use portfolio_server.Http.{Request}
use portfolio_server.Errors.Sql.{SqlError, msg, sqlx, other}
use portfolio_server.Errors.Blog.{query_failed, unexpected_error}
use portfolio_server.Errors.Web.{WebError, blog}
use portfolio_server.Env.{Env, count_posts, select_posts}
use portfolio_server.Db.{Db, window}
use portfolio_server.Types.Article.{ArticleRecord, ArticleRecordRaw, try_from_raw}
use portfolio_server.Types.Pagination.{PaginationQuery, PaginatedResponse, offset, from_total}
use portfolio_server.Idempotency.Execute.{header_text}
use portfolio_server.Session.Typed.{SessionLib, get_user_id}

-- `parse_header::<i64>` and `parse_header::<bool>`
abbrev pub parse_header : {A : Type 0} → (Text → Option A) → Env → Request → Text → Option A
parse_header parse env request key = elim (header_text env request key) [
  | none ↦ none
  | some t ↦ parse t
]

unfoldable pub pagination_of : Env → Request → PaginationQuery
unfolding parse_i64
pagination_of env request = record {
  page_field = unwrap_or (parse_header parse_i64 env request (text "blogpost-page")) (pos 1);
  page_size_field =
      unwrap_or (parse_header parse_i64 env request (text "blogpost-page-size")) (pos 20);
}

unfoldable pub published_only : Env → Request → Bool → Bool
unfolding parse_bool
published_only env request is_authenticated =
    if is_authenticated
    then unwrap_or (parse_header parse_bool env request (text "blogpost-onpublished")) false
    else true

-- The condition of both statements.
abbrev pub has_slug : Option Text → ArticleRecordRaw → Bool
has_slug none row = true
has_slug (some slug) row = text_eq row.slug slug

abbrev pub is_listed : Bool → Option Text → ArticleRecordRaw → Bool
is_listed on_published slug row = (not on_published || row.published) && has_slug slug row

abbrev pub listed : Bool → Option Text → Db → List ArticleRecordRaw
listed on_published slug pool = filter (is_listed on_published slug) pool.blog_posts

-- `.map(ArticleRecord::try_from).collect::<Result<Vec<_>, _>>()`
unfoldable pub decode_all : Env → List ArticleRecordRaw → Result (List ArticleRecord) Text
decode_all env [] = ok []
decode_all env (row ∷ rows) =
    let rest = decode_all env rows in
    and_then (try_from_raw env.sections_from_json row)
      (λ article. and_then rest (λ articles. ok (article ∷ articles)))

-- What Postgres says of a negative number.
abbrev refused : SqlError
refused = other (text "LIMIT and OFFSET must not be negative")

unfoldable pub select_articles :
    Env → PaginationQuery → Bool → Option Text → Db → Result (List ArticleRecord) WebError
unfolding offset order_desc decode_all
select_articles env q on_published slug pool = elim (env.fault select_posts) [
  | some e ↦ err (blog (unexpected_error (sqlx e)))
  | none ↦
      elim (window q.page_size_field (offset q)
        (order_desc (λ row. row.created_at) (listed on_published slug pool))) [
          | none ↦ err (blog (unexpected_error (sqlx refused)))
          | some rows ↦ elim (decode_all env rows) [
            | err e ↦ err (blog (unexpected_error (msg e)))
            | ok articles ↦ ok articles
          ]
        ]
]

abbrev pub with_meta :
    PaginationQuery
    → ℕ
    → Result (List ArticleRecord) WebError
    → Result (PaginatedResponse ArticleRecord) WebError
with_meta q total (err e) = err e
with_meta q total (ok articles) =
    ok (record { items = articles; pagination = from_total (pos total) q })

unfoldable pub get_articles :
    (S : SessionLib)
    → Env
    → Request
    → Db
    → S.State
    → Result (PaginatedResponse ArticleRecord) WebError
unfolding select_articles from_total pagination_of published_only get_user_id
get_articles S env request pool session = elim (get_user_id S session) [
  | err e ↦ err (blog (unexpected_error e))
  | ok user ↦
      let on_published = published_only env request (is_some user) in
      let slug = header_text env request (text "blogpost-slug") in
      elim (env.fault count_posts) [
        | some e ↦ err (blog query_failed)
        | none ↦
            with_meta (pagination_of env request) (length (listed on_published slug pool))
              (select_articles env (pagination_of env request) on_published slug pool)
      ]
]
