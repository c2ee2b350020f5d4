-- ===== src/Blog/Slug.antt =====
-- `get_article_slug` of src/routes/admin/dashboard/blog/post.rs.
use portfolio_server.Prelude.{
  ℕ, ◌+◌, ◌≤◌, ◌≡◌, refl, Text, Bool, leb, ◌==◌, ◌&&◌, ◌||◌, ◌⊎◌, [], ◌∷◌, map, filter, All,
  if◌then◌else◌, arith, false, ◌++◌,
}

abbrev is_ascii_alphabetic : ℕ → Bool
is_ascii_alphabetic c = leb b'A' c && leb c b'Z' || leb b'a' c && leb c b'z'

abbrev to_ascii_lowercase : ℕ → ℕ
to_ascii_lowercase c = if leb b'A' c && leb c b'Z' then c + 32 else c

-- `replace(' ', "-")` on one character
abbrev hyphenate : ℕ → ℕ
hyphenate c = if c == 0x20 then b'-' else c

abbrev stays : ℕ → Bool
stays c = is_ascii_alphabetic c || c == b'-'

unfoldable pub get_article_slug : Text → Text
get_article_slug title = map to_ascii_lowercase (filter stays (map hyphenate title))

abbrev pub IsSlugChar : ℕ → Type 0
IsSlugChar c = ((b'a' ≤ c) × (c ≤ b'z')) ⊎ (c ≡ b'-')

-- A slug holds small letters and hyphens only.
slug-All : (title : Text) → All IsSlugChar (get_article_slug title)
unfolding get_article_slug
slug-All [] = tt
slug-All (c ∷ title) = ground (arith, slug-All title)

-- Such a text is its own slug.
slug_of_IsSlugChar : (t : Text) → All IsSlugChar t → get_article_slug t ≡ t
unfolding get_article_slug
slug_of_IsSlugChar [] h = refl
slug_of_IsSlugChar (c ∷ t) h = ground (arith, slug_of_IsSlugChar t)

-- The slug of a title holds small letters and hyphens only, and is its own slug.
pub get_article_slug-idempotent :
    (title : Text)
    → All IsSlugChar (get_article_slug title)
      × (get_article_slug (get_article_slug title) ≡ get_article_slug title)
get_article_slug-idempotent title =
    (slug-All title, slug_of_IsSlugChar (get_article_slug title) (slug-All title))

-- Digits, punctuation and letters outside of ASCII do not count: titles that differ in them alone
-- have one slug.
pub get_article_slug-ignores :
    (before after : Text) (c : ℕ)
    → stays (hyphenate c) ≡ false
    → get_article_slug (before ++ c ∷ after) ≡ get_article_slug (before ++ after)
unfolding get_article_slug
get_article_slug-ignores [] after c h = rw h
get_article_slug-ignores (b ∷ before) after c h =
    ground (arith, get_article_slug-ignores before after c h)
