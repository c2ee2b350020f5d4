-- ===== src/Blog/Unique.antt =====
-- The unique columns of the articles under INSERT, UPDATE and DELETE.
use portfolio_server.Blog.Rows.{has_id}
use portfolio_server.Blog.Post.{collides}
use portfolio_server.Blog.Effects.{IsUniquePosts}
use portfolio_server.Prelude.{
  ◌≡◌, Bool, false, List, ◌∷◌, any, arith, update_where, delete_where, text_eq, count-delete_where,
  ◌==◌, any_or, update-IsUniqueBy, insert-IsUniqueBy, eq_of_==, eq_of_text_eq,
}
use portfolio_server.Types.Article.{ArticleRecordRaw}

pub insert-IsUniquePosts :
    (new : ArticleRecordRaw) (posts : List ArticleRecordRaw)
    → any (collides new) posts ≡ false
    → IsUniquePosts posts
    → IsUniquePosts (new ∷ posts)
insert-IsUniquePosts new posts free u =
    let (ids, slugs) = any_or (has_id new.post_id) (λ old. text_eq old.slug new.slug) posts free in
    record {
      ids = insert-IsUniqueBy ◌==◌ (λ row. row.post_id) new posts eq_of_== ids u.ids;
      slugs = insert-IsUniqueBy text_eq (λ row. row.slug) new posts eq_of_text_eq slugs u.slugs;
    }

-- An UPDATE that writes neither unique column.
pub update-IsUniquePosts :
    (p : ArticleRecordRaw → Bool) (f : ArticleRecordRaw → ArticleRecordRaw)
    (posts : List ArticleRecordRaw)
    → ((row : ArticleRecordRaw) → ((f row).post_id ≡ row.post_id) × ((f row).slug ≡ row.slug))
    → IsUniquePosts posts
    → IsUniquePosts (update_where p f posts)
update-IsUniquePosts p f posts same u = record {
  ids = update-IsUniqueBy ◌==◌ (λ row. row.post_id) p f posts (λ row. (same row).0) u.ids;
  slugs = update-IsUniqueBy text_eq (λ row. row.slug) p f posts (λ row. (same row).1) u.slugs;
}

pub delete-IsUniquePosts :
    (p : ArticleRecordRaw → Bool) (posts : List ArticleRecordRaw)
    → IsUniquePosts posts
    → IsUniquePosts (delete_where p posts)
delete-IsUniquePosts p posts u = record {
  ids = λ id. omega (arith, count-delete_where p (has_id id) posts, u.ids id);
  slugs = λ slug.
      omega (arith, count-delete_where p (λ row. text_eq row.slug slug) posts, u.slugs slug);
}
