-- ===== src/Tests/Reading.antt =====
-- Tests of the listings and of the marks on messages.
use portfolio_server.Session.Typed.{get_user_id}
use portfolio_server.Blog.Reader.{process_publish_article-get_articles}
use portfolio_server.Blog.Publish.{process_publish_article}
use portfolio_server.Blog.Effects.{IsUniquePosts}
use portfolio_server.Blog.Listing.{get_articles-published}
use portfolio_server.Errors.Web.{WebError, answer_status}
use portfolio_server.Prelude.{
  text, ◌≡◌, ◌∷◌, true, ℕ, pos, Result, text_eq, [], ok, ◌≤◌, some, refl, take, false, ◌^◌,
  order_desc, List, arith, find?, drop, err, ◌-◌, length, ◌*◌, All, text_eq_iff,
}
use portfolio_server.Http.{get, Request, finish}
use portfolio_server.Tests.Samples.{quiet, two_posts, post}
use portfolio_server.Tests.Sessions.{in_list}
use portfolio_server.Blog.List.{get_articles, pagination_of, decode_all}
use portfolio_server.Messages.Patch.{process_patch_message, is_message}
use portfolio_server.Messages.List.{get_messages, MessagesResponse}
use portfolio_server.Messages.Effects.{process_patch_message_effect, get_messages_page}
use portfolio_server.Types.Pagination.{
  PaginationQuery, limit, offset, PaginatedResponse, page, from_total,
}
use portfolio_server.Types.Pagination.Bounds.{page_number, size_number}
use portfolio_server.Types.Article.{ArticleRecord, try_from_raw, ArticlePublishRequest}
use portfolio_server.Db.{Db, MessageRow}

abbrev mail : ℕ → MessageRow
mail id = record {
  message_id = id;
  email = text "a@b.c";
  sender_name = text "John";
  message_text = text "Hello, hello.";
  created_at = id;
  read_message = some false;
}

abbrev two_mails : Db
two_mails = record two_posts { messages = mail 1 ∷ mail 2 ∷ [] }

process_patch_message_effect_example :
    ((process_patch_message quiet (record { message_id = 2; read = true }) two_mails).0
      ≡ ok (finish 202))
    × (answer_status
          (process_patch_message quiet (record { message_id = 2; read = true }) two_mails).0
        ≡ 202)
    × (find?
          (is_message 2)
          (process_patch_message quiet
            (record { message_id = 2; read = true })
            two_mails).1.messages
        ≡ some (record (mail 2) { read_message = some true }))
process_patch_message_effect_example =
    process_patch_message_effect quiet two_mails 2 (record { message_id = 2; read = true }) refl
      (omega arith)

abbrev second_of_one : PaginationQuery
second_of_one = record { page_field = pos 2; page_size_field = pos 1 }

second_small : page_number second_of_one ≤ 2 ^ 58
unfolding page
second_small = omega arith

get_messages_page_example :
    (page : MessagesResponse) × (get_messages quiet second_of_one two_mails ≡ ok page)
    × (page.messages
        ≡ take (size_number second_of_one) (
            drop
              ((page_number second_of_one - 1) * size_number second_of_one)
              (order_desc (λ row. row.created_at) two_mails.messages)))
    × (page.total_items ≡ pos 2)
get_messages_page_example = get_messages_page quiet second_of_one two_mails refl refl second_small

abbrev shown : Db
shown = record two_posts {
  blog_posts = record (post 1 (text "a")) { published = true } ∷ post 2 (text "b") ∷ [];
}

-- A page of 50 rows is asked for: the statement's limit is 50, the answer says 20.
abbrev fifty : Request
fifty = record {
  method = text "GET";
  path = text "/v1/blog";
  uri_path = text "/v1/blog";
  headers = (text "blogpost-page-size", text "50") ∷ [];
  cookies = [];
}

fifty_pages :
    ((pagination_of quiet fifty).page_size_field ≡ pos 50)
    × (limit (pagination_of quiet fifty) ≡ pos 20)
unfolding pagination_of limit get text_eq
fifty_pages = (refl, refl)

abbrev first_page : Result (PaginatedResponse ArticleRecord) WebError
first_page = get_articles in_list quiet fifty shown (true, [])

abbrev articles_of : Result (PaginatedResponse ArticleRecord) WebError → List ArticleRecord
articles_of (ok page) = page.items
articles_of (err e) = []

one_shown : length (articles_of first_page) ≡ 1
unfolding get_articles get text_eq order_desc try_from_raw decode_all offset
one_shown = refl

abbrev shown_page : PaginatedResponse ArticleRecord
shown_page = record {
  items =
      record {
        post_id = 1;
        title = text "T";
        slug = text "a";
        excerpt = text "E";
        sections = [];
        author = text "A";
        published = true;
        created_at = 1;
        updated_at = 1;
      }
      ∷ [];
  pagination = from_total (pos 1) (pagination_of quiet fifty);
}

get_articles-published_example : All (λ a. a.published ≡ true) shown_page.items
unfolding get_articles get text_eq order_desc try_from_raw decode_all offset
get_articles-published_example =
    get_articles-published in_list quiet fifty shown (true, []) shown_page refl refl

-- A reader asks for the second article by its slug, after it was published.
abbrev asks_b : Request
asks_b = record {
  method = text "GET";
  path = text "/v1/blog";
  uri_path = text "/v1/blog";
  headers = (text "blogpost-slug", text "b") ∷ [];
  cookies = [];
}

abbrev publishes_b : ArticlePublishRequest
publishes_b = record { post_id = 2; published = true }

abbrev b_as_read : ArticleRecord
b_as_read = record {
  post_id = 2;
  title = text "T";
  slug = text "b";
  excerpt = text "E";
  sections = [];
  author = text "A";
  published = true;
  created_at = 2;
  updated_at = 5000;
}

two_posts-IsUniquePosts : IsUniquePosts two_posts.blog_posts
two_posts-IsUniquePosts = record {
  ids = λ id. ground arith;
  slugs = λ slug. ground (arith, text_eq_iff (text "a") slug, text_eq_iff (text "b") slug);
}

process_publish_article-get_articles_example :
    (page : PaginatedResponse ArticleRecord) × (get_articles in_list quiet asks_b
        (process_publish_article quiet publishes_b two_posts).1
        (true, [])
      ≡ ok page)
    × (page.items ≡ b_as_read ∷ [])
unfolding process_publish_article get text_eq try_from_raw offset pagination_of get_user_id
process_publish_article-get_articles_example =
    process_publish_article-get_articles in_list quiet quiet publishes_b two_posts
      (process_publish_article quiet publishes_b two_posts).1 (finish 202) (post 2 (text "b"))
      b_as_read asks_b (true, []) 19 two_posts-IsUniquePosts refl refl refl refl refl refl refl refl
      refl
