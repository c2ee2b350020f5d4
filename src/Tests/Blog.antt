-- ===== src/Tests/Blog.antt =====
-- Tests of the articles.
use portfolio_server.Types.Article.Limits.{FormFits, validate_form_iff}
use portfolio_server.Blog.Builder.{PlainPlaceholders}
use portfolio_server.Blog.Post.{process_new_article, new_row, article_response}
use portfolio_server.Blog.Delete.{process_delete_article}
use portfolio_server.Blog.Slug.{get_article_slug}
use portfolio_server.Types.Article.{validate_form, ArticleEditRequest}
use portfolio_server.Blog.Publish.{process_publish_article}
use portfolio_server.Blog.Effects.{
  IsUniquePosts, post_at, process_delete_article_effect, process_publish_article_effect,
  process_edit_article_effect, process_new_article_effect,
}
use portfolio_server.Blog.Edit.{process_edit_article, build_update}
use portfolio_server.Prelude.{
  ◌≡◌, refl, text, true, none, some, ok, arith, ◌↔◌, text_eq_iff, text_eq,
}
use portfolio_server.Http.{finish}
use portfolio_server.Errors.Web.{answer_status}
use portfolio_server.Env.{respond}
use portfolio_server.Tests.Samples.{quiet, two_posts, post, form}

validate_form_iff_example : (validate_form form ≡ ok tt) ↔ FormFits form
validate_form_iff_example = validate_form_iff form

abbrev retitled : ArticleEditRequest
retitled = record {
  post_id = 2;
  title = some (text "U, no");
  sections = none;
  excerpt = none;
  author = none;
}

abbrev empty_edit : ArticleEditRequest
empty_edit = record { post_id = 2; title = none; sections = none; excerpt = none; author = none }

slug_test : get_article_slug (text "New Blog Title") ≡ text "new-blog-title"
unfolding get_article_slug
slug_test = refl

-- Two different titles, one slug: the second article cannot be created.
same_slug : get_article_slug (text "Part 1") ≡ get_article_slug (text "Part 2")
unfolding get_article_slug
same_slug = refl

built :
    (build_update quiet retitled).sql
    ≡ text "UPDATE blog_posts SET title= $1, updated_at = NOW() WHERE post_id = $1"
unfolding build_update
built = refl

plain : PlainPlaceholders quiet
plain n = omega arith

two_unique : IsUniquePosts two_posts.blog_posts
two_unique = record {
  ids = λ id. ground arith;
  slugs = λ s. ground (arith, text_eq_iff (text "a") s, text_eq_iff (text "b") s);
}

process_publish_article_effect_example :
    ((process_publish_article quiet (record { post_id = 1; published = true }) two_posts).0
      ≡ ok (finish 202))
    × (answer_status
          (process_publish_article quiet (record { post_id = 1; published = true }) two_posts).0
        ≡ 202)
    × (post_at 2
          (process_publish_article quiet (record { post_id = 1; published = true }) two_posts).1
        ≡ some (post 2 (text "b")))
process_publish_article_effect_example =
    process_publish_article_effect quiet two_posts two_unique 2
      (record { post_id = 1; published = true }) refl

process_edit_article_effect_example :
    ((process_edit_article quiet retitled two_posts).0 ≡ ok (finish 202))
    × (answer_status (process_edit_article quiet retitled two_posts).0 ≡ 202)
    × (post_at 2 (process_edit_article quiet retitled two_posts).1
        ≡ some (record (post 2 (text "b")) { title = text "U, no"; updated_at = 5000 }))
process_edit_article_effect_example =
    process_edit_article_effect quiet two_posts two_unique 2 retitled plain refl refl

process_delete_article_effect_example :
    ((process_delete_article quiet (record { post_id = 2 }) two_posts).0 ≡ ok (finish 200))
    × (answer_status (process_delete_article quiet (record { post_id = 2 }) two_posts).0 ≡ 200)
    × (post_at 2 (process_delete_article quiet (record { post_id = 2 }) two_posts).1 ≡ none)
process_delete_article_effect_example =
    process_delete_article_effect quiet two_posts two_unique 2 (record { post_id = 2 }) refl

process_new_article_effect_example :
    (answer_status (process_new_article quiet form two_posts).0 ≡ 202)
    × ((process_new_article quiet form two_posts).0
        ≡ ok (respond quiet 202 (article_response quiet (text "Post received successfully") 9)))
    × (post_at 9 (process_new_article quiet form two_posts).1 ≡ some (new_row quiet form))
unfolding get_article_slug text_eq
process_new_article_effect_example = process_new_article_effect quiet two_posts 9 form refl
