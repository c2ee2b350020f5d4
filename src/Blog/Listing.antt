-- ===== src/Blog/Listing.antt =====
-- Which articles the listing of src/routes/blog/get.rs shows.
use portfolio_server.Idempotency.Execute.{header_text}
use portfolio_server.Types.Pagination.{PaginatedResponse, PaginationQuery, offset}
use portfolio_server.Db.{window, Db}
use portfolio_server.Http.{Request, Json}
use portfolio_server.Env.{Env, count_posts, select_posts}
use portfolio_server.Types.Article.{ArticleRecordRaw, try_from_raw, ArticleRecord, ArticleSection}
use portfolio_server.Session.Typed.{SessionLib, get_user_id}
use portfolio_server.Prelude.{
  ℤ, insert_desc, ℕ, Bool, order_desc, ◌≡◌, List, All, true, ◌∷◌, filter, some, drop, take, ok, [],
  suc, arith, zero, none, pos, negsuc, Result-cases, subst, Option, text, inr, Option-cases, inl,
  Text, Result, refl, ◌∙◌,
}
use portfolio_server.Blog.List.{
  get_articles, select_articles, is_listed, listed, decode_all, published_only, pagination_of,
}

abbrev Shows : ArticleRecordRaw → Type 0
Shows row = row.published ≡ true

module _ {A : Type 0} (P : A → Type 0) where
  All-filter : (p : A → Bool) (xs : List A) → ((x : A) → p x ≡ true → P x) → All P (filter p xs)
  All-filter p [] h = tt
  All-filter p (x ∷ xs) h = ground (arith, h x, All-filter p xs h)

  All-take : (n : ℕ) (xs : List A) → All P xs → All P (take n xs)
  All-take zero xs h = tt
  All-take (suc n) [] h = tt
  All-take (suc n) (x ∷ xs) (here, rest) = (here, All-take n xs rest)

  All-drop : (n : ℕ) (xs : List A) → All P xs → All P (drop n xs)
  All-drop zero xs h = h
  All-drop (suc n) [] h = tt
  All-drop (suc n) (x ∷ xs) (here, rest) = All-drop n xs rest

  All-insert_desc :
      (key : A → ℕ) (x : A) (xs : List A) → P x → All P xs → All P (insert_desc key x xs)
  unfolding insert_desc
  All-insert_desc key x [] px h = (px, tt)
  All-insert_desc key x (y ∷ ys) px (py, h) = ground (arith, px, py, All-insert_desc key x ys px h)

  pub All-order_desc : (key : A → ℕ) (xs : List A) → All P xs → All P (order_desc key xs)
  unfolding order_desc
  All-order_desc key [] h = tt
  All-order_desc key (x ∷ xs) (px, h) =
      All-insert_desc key x (order_desc key xs) px (All-order_desc key xs h)

  All-window : (l o : ℤ) (xs ys : List A) → window l o xs ≡ some ys → All P xs → All P ys
  All-window (pos l) (pos m) xs ys e h =
      let same : take l (drop m xs) ≡ ys = ground arith in
      subst (All P) same (All-take l (drop m xs) (All-drop m xs h))
  All-window (pos l) (negsuc m) xs ys e h = ground arith
  All-window (negsuc l) o xs ys e h = ground arith

All-of_ok {ℓ} :
    {A : Type 0} {E : Type ℓ} (P : A → Type 0) (xs ys : List A)
    → (r : Result (List A) E) → r ≡ ok xs
    → r ≡ ok ys
    → All P xs
    → All P ys
All-of_ok P xs ys r e e' h = let same : xs ≡ ys = ground arith in subst (All P) same h

abbrev IsShown : ArticleRecord → Type 0
IsShown article = article.published ≡ true

try_from_raw-published :
    (decode : Json → Result (List ArticleSection) Text) (row : ArticleRecordRaw)
    (article : ArticleRecord)
    → try_from_raw decode row ≡ ok article
    → article.published ≡ row.published
unfolding try_from_raw
try_from_raw-published decode row article e = ground arith

decode_all-published :
    (env : Env) (rows : List ArticleRecordRaw) (articles : List ArticleRecord)
    → decode_all env rows ≡ ok articles
    → All Shows rows
    → All IsShown articles
unfolding decode_all
decode_all-published env [] articles e h =
    All-of_ok IsShown [] articles (decode_all env []) refl e tt
decode_all-published env (row ∷ rows) articles e (here, h) =
    elim (Result-cases (try_from_raw env.sections_from_json row)) [
      | inr (why, bad) ↦ ground (arith, bad)
      | inl (article, good) ↦ elim (Result-cases (decode_all env rows)) [
        | inr (why, bad) ↦ ground (arith, good, bad)
        | inl (rest, fine) ↦
            All-of_ok IsShown (article ∷ rest) articles (decode_all env (row ∷ rows))
              (rw (good, fine, decode_all) refl) e
              (
                try_from_raw-published env.sections_from_json row article good ∙ here,
                decode_all-published env rows rest fine h,
              )
      ]
    ]

select_articles-published :
    (env : Env) (q : PaginationQuery) (slug : Option Text) (pool : Db)
    (articles : List ArticleRecord)
    → select_articles env q true slug pool ≡ ok articles
    → All IsShown articles
unfolding select_articles
select_articles-published env q slug pool articles e =
    let rows = order_desc (λ row. row.created_at) (listed true slug pool) in
    let shown : All Shows rows =
      All-order_desc Shows (λ row. row.created_at) (listed true slug pool)
        (All-filter Shows (is_listed true slug) pool.blog_posts (λ row h. ground arith)) in
    elim (Option-cases (env.fault select_posts)) [
      | inr (why, down) ↦ ground (arith, down)
      | inl up ↦ elim (Option-cases (window q.page_size_field (offset q) rows)) [
        | inl negative ↦ ground (arith, up, negative)
        | inr (cut, taken) ↦
            let part = All-window Shows q.page_size_field (offset q) rows cut taken shown in
            elim (Result-cases (decode_all env cut)) [
              | inr (why, bad) ↦ ground (arith, up, taken, bad)
              | inl (decoded, fine) ↦
                  All-of_ok IsShown decoded articles (select_articles env q true slug pool)
                    (rw (up, taken, fine, select_articles) refl) e
                    (decode_all-published env cut decoded fine part)
            ]
      ]
    ]

-- A reader who is not signed in is shown published articles only.
pub get_articles-published :
    (S : SessionLib) (env : Env) (request : Request) (pool : Db) (session : S.State)
    (page : PaginatedResponse ArticleRecord)
    → get_user_id S session ≡ ok none
    → get_articles S env request pool session ≡ ok page
    → All (λ a. a.published ≡ true) page.items
unfolding get_articles published_only
get_articles-published S env request pool session page anonymous e =
    let slug = header_text env request (text "blogpost-slug") in
    elim (Option-cases (env.fault count_posts)) [
      | inr (why, down) ↦ ground (arith, anonymous, down)
      | inl up ↦
          elim (Result-cases (select_articles env (pagination_of env request) true slug pool)) [
            | inr (why, bad) ↦ ground (arith, anonymous, up, bad)
            | inl (articles, fine) ↦
                let same : articles ≡ page.items = ground (arith, anonymous, up, fine) in
                subst (All IsShown) same (
                  select_articles-published env (pagination_of env request) slug pool articles fine)
          ]
    ]
