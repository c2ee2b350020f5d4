-- ===== src/Blog/Reader.antt =====
-- From the publication of an article to its readers: src/routes/admin/dashboard/blog/patch.rs, then
-- src/routes/blog/get.rs.
use portfolio_server.Errors.Web.{WebError}
use portfolio_server.Blog.Unique.{update-IsUniquePosts}
use portfolio_server.Types.Pagination.{PaginationQuery, offset, PaginatedResponse, from_total}
use portfolio_server.Idempotency.Execute.{header_text}
use portfolio_server.Blog.List.{
  listed, select_articles, get_articles, published_only, decode_all, pagination_of,
}
use portfolio_server.Blog.Rows.{has_id}
use portfolio_server.Http.{Response, Request}
use portfolio_server.Blog.Effects.{IsUniquePosts}
use portfolio_server.Types.Article.{
  ArticlePublishRequest, ArticleRecordRaw, ArticleRecord, try_from_raw,
}
use portfolio_server.Db.{Db}
use portfolio_server.Session.Typed.{SessionLib, get_user_id}
use portfolio_server.Blog.Publish.{process_publish_article, set_published}
use portfolio_server.Env.{Env, select_posts, count_posts}
use portfolio_server.Prelude.{
  some, refl, Bool, List, find?, count, ◌≡◌, filter, true, ◌&&◌, ◌≤◌, arith, [], if◌then◌else◌, ◌∷◌,
  pos, ℕ, ok, text_eq, order_desc, text_eq_refl, insert_desc, none, text, suc, Bool-cases, inl, inr,
  update_where, length, found-holds, find?-update_where, Result, ◌∙◌, ap, sym, take, zero,
}

module _ {A : Type 0} (p q : A → Bool) where
  count_of_found : (xs : List A) (x : A) → find? q xs ≡ some x → p x ≡ true → 1 ≤ count p xs
  count_of_found [] x found good = ground arith
  count_of_found (y ∷ xs) x found good = ground (arith, count_of_found xs x)

  filter-none : (s : A → Bool) (xs : List A) → count p xs ≡ 0 → filter (λ x. s x && p x) xs ≡ []
  filter-none s [] h = refl
  filter-none s (x ∷ xs) h = ground (arith, filter-none s xs)

  -- A filter that only one row can pass.
  filter_unique :
      (s : A → Bool) (xs : List A) (x : A)
      → find? q xs ≡ some x
      → p x ≡ true
      → count p xs ≤ 1
      → filter (λ y. s y && p y) xs ≡ (if s x then x ∷ [] else [])
  filter_unique s [] x found good one = ground arith
  filter_unique s (y ∷ xs) x found good one =
      ground (arith, filter-none s xs, count_of_found xs x, filter_unique s xs x)

take-nil : {A : Type 0} (n : ℕ) → take {A = A} n [] ≡ []
take-nil zero = refl
take-nil (suc n) = refl

-- What the statement selects for one slug: the article, where it is shown.
module _ (env : Env) (pool : Db) (unique : IsUniquePosts pool.blog_posts) (j n : ℕ)
    (row : ArticleRecordRaw) (here : find? (has_id j) pool.blog_posts ≡ some row)
    (article : ArticleRecord) (reads : try_from_raw env.sections_from_json row ≡ ok article) where
  listed-slug : listed true (some row.slug) pool ≡ (if row.published then row ∷ [] else [])
  listed-slug =
      filter_unique (λ x. text_eq x.slug row.slug) (has_id j) (λ x. x.published) pool.blog_posts row
        here (text_eq_refl row.slug) (unique.slugs row.slug)

  abbrev answer : Bool → Result (List ArticleRecord) WebError
  answer shown = ok (if shown then article ∷ [] else [])

  select_articles-slug :
      (q : PaginationQuery)
      → env.fault select_posts ≡ none
      → q.page_size_field ≡ pos (suc n)
      → offset q ≡ pos 0
      → select_articles env q true (some row.slug) pool ≡ answer row.published
  unfolding select_articles order_desc insert_desc decode_all
  select_articles-slug q up size start = elim (Bool-cases row.published) [
    | inl shown ↦
        let one : listed true (some row.slug) pool ≡ row ∷ [] =
          listed-slug ∙ ap (λ b. if b then row ∷ [] else []) shown in
        (rw (up, start, size, one, take-nil {A = ArticleRecordRaw} n, reads, select_articles) refl)
        ∙ ap answer (sym shown)
    | inr hidden ↦
        let nothing : listed true (some row.slug) pool ≡ [] =
          listed-slug ∙ ap (λ b. if b then row ∷ [] else []) hidden in
        (rw (up, start, size, nothing, select_articles) refl) ∙ ap answer (sym hidden)
  ]

  get_articles-slug :
      (S : SessionLib) (request : Request) (session : S.State)
      → get_user_id S session ≡ ok none
      → header_text env request (text "blogpost-slug") ≡ some row.slug
      → (pagination_of env request).page_size_field ≡ pos (suc n)
      → offset (pagination_of env request) ≡ pos 0
      → env.fault count_posts ≡ none
      → env.fault select_posts ≡ none
      → (page : PaginatedResponse ArticleRecord) × (get_articles S env request pool session
          ≡ ok page)
        × (page.items ≡ (if row.published then article ∷ [] else []))
  unfolding get_articles published_only
  get_articles-slug S request session anonymous slug size start counts selects =
      let q = pagination_of env request in
      let items = select_articles-slug q selects size start in
      (
        record {
          items = if row.published then article ∷ [] else [];
          pagination = from_total (pos (length (listed true (some row.slug) pool))) q;
        },
        rw (anonymous, counts, slug, items, get_articles) refl,
        refl,
      )

-- A reader who is not signed in, and who asks for an article by its slug, gets it after an answered
-- request that published it, and gets an empty list after one that took it back, on the first page.
-- Identifiers and slugs are unique, the stored sections can be read, and the statements of the
-- reader's request reach the database.
pub process_publish_article-get_articles :
    (S : SessionLib) (env env' : Env) (asked : ArticlePublishRequest) (tx after : Db) (r : Response)
    (row : ArticleRecordRaw) (article : ArticleRecord) (request : Request) (session : S.State)
    (n : ℕ)
    → IsUniquePosts tx.blog_posts
    → find? (has_id asked.post_id) tx.blog_posts ≡ some row
    → process_publish_article env asked tx ≡ (ok r, after)
    → try_from_raw env'.sections_from_json (set_published env asked row) ≡ ok article
    → get_user_id S session ≡ ok none
    → header_text env' request (text "blogpost-slug") ≡ some row.slug
    → (pagination_of env' request).page_size_field ≡ pos (suc n)
    → offset (pagination_of env' request) ≡ pos 0
    → env'.fault count_posts ≡ none
    → env'.fault select_posts ≡ none
    → (page : PaginatedResponse ArticleRecord) × (get_articles S env' request after session
        ≡ ok page)
      × (page.items ≡ (if asked.published then article ∷ [] else []))
unfolding process_publish_article
process_publish_article-get_articles S env env' asked tx after r row article request session n
      unique here answered reads anonymous slug size start counts selects =
    let changed : after.blog_posts
        ≡ update_where (has_id asked.post_id) (set_published env asked) tx.blog_posts =
      ground arith in
    let kept : IsUniquePosts after.blog_posts = rw changed (
      update-IsUniquePosts (has_id asked.post_id) (set_published env asked) tx.blog_posts
        (λ x. (refl, refl)) unique) in
    let named : has_id asked.post_id row ≡ true =
      found-holds (has_id asked.post_id) tx.blog_posts row here in
    let there : find? (has_id asked.post_id) after.blog_posts ≡ some (set_published env asked row) =
      rw
        (
          changed,
          find?-update_where (has_id asked.post_id) (has_id asked.post_id) (set_published env asked)
              (λ x. refl) tx.blog_posts,
          here,
          named,
        )
        refl in
    get_articles-slug env' after kept asked.post_id n (set_published env asked row) there article
      reads S request session anonymous slug size start counts selects
