-- ===== src/Blog/Builder.antt =====
-- The UPDATE that an edit builds: when it is recognised as one that sets no column, and what it sets.
use portfolio_server.Prelude.{
  ℕ, suc, ◌≡◌, ◌≢◌, refl, Text, text, Bool, true, false, ◌++◌, [], ◌∷◌, starts_with, contains, All,
  arith, ◌==◌, if◌then◌else◌, not, ◌||◌, ◌∙◌, map_option, Option, length, text_eq, unwrap_or, some,
  none, List,
}
use portfolio_server.Env.{Env}
use portfolio_server.Types.Article.{ArticleEditRequest, ArticleRecordRaw, ArticleSection}
use portfolio_server.Blog.Edit.{
  given, build_update, no_fields, push_if_some, QueryBuilder, start, push_bind, push_separated,
  push, edited, Bound, text_value, json_value, id_value,
}

-- The text has no capital U.
abbrev pub NoU : Text → Type 0
NoU = All (λ c. c ≢ b'U')

NoU-append : (s t : Text) → NoU s → NoU t → NoU (s ++ t)
NoU-append [] t h k = k
NoU-append (c ∷ s) t (p, h) k = (p, NoU-append s t h k)

contains-NoU : (s p : Text) → NoU s → contains s (b'U' ∷ p) ≡ false
unfolding contains
contains-NoU [] p h = refl
contains-NoU (c ∷ s) p (q, h) = ground (arith, contains-NoU s p h)

-- A column was pushed: behind the head of the statement stands no comma, and no further U.
record Pushed (b : QueryBuilder) : Type 0 where
  first : ℕ
  rest : Text
  shape : b.sql ≡ start.sql ++ first ∷ rest
  no_comma : first ≢ b','
  clean : NoU (first ∷ rest)

not-contains-Pushed : (b : QueryBuilder) → Pushed b → contains b.sql no_fields ≡ false
unfolding contains starts_with
not-contains-Pushed b p =
    let apart : (p.first == b',') ≡ false = ground (arith, p.no_comma) in
    let tail : NoU (text "PDATE blog_posts SET " ++ p.first ∷ p.rest) =
      NoU-append (text "PDATE blog_posts SET ") (p.first ∷ p.rest) (omega arith) p.clean in
    rw p.shape (
      rw apart (
        contains-NoU (text "PDATE blog_posts SET " ++ p.first ∷ p.rest)
          (text "PDATE blog_posts SET , updated_at = NOW() WHERE post_id = ") tail))

-- No placeholder has a capital U.
abbrev pub PlainPlaceholders : Env → Type 0
PlainPlaceholders env = (n : ℕ) → NoU (env.placeholder n)

module _ (env : Env) (plain : PlainPlaceholders env) where
  Pushed-append :
      (b b' : QueryBuilder) (t : Text) → b'.sql ≡ b.sql ++ t → NoU t → Pushed b → Pushed b'
  Pushed-append b b' t e h p = record {
    first = p.first;
    rest = p.rest ++ t;
    shape = rw (e, p.shape);
    no_comma = p.no_comma;
    clean = (p.clean.0, NoU-append p.rest t p.clean.1 h);
  }

  push_if_some-Pushed :
      (column : Text) (b : QueryBuilder) (value : Option Bound)
      → NoU column
      → Pushed b
      → Pushed (push_if_some env column value b)
  push_if_some-Pushed column b none h p = p
  push_if_some-Pushed column b (some v) h p =
      Pushed-append (push_separated column b) (push_if_some env column (some v) b)
        (env.placeholder (suc (length b.bound))) refl (plain (suc (length b.bound)))
        (Pushed-append b (push_separated column b)
          (if b.separate then text ", " ++ column else column) refl (separated b.separate) p)
    where
      separated : (sep : Bool) → NoU (if sep then text ", " ++ column else column)
      separated true = NoU-append (text ", ") column (omega arith) h
      separated false = h

  push_if_some-start :
      (c : ℕ) (column : Text) (v : Bound)
      → c ≢ b','
      → NoU (c ∷ column)
      → Pushed (push_if_some env (c ∷ column) (some v) start)
  push_if_some-start c column v n h = record {
    first = c;
    rest = column ++ env.placeholder 1;
    shape = refl;
    no_comma = n;
    clean = (h.0, NoU-append column (env.placeholder 1) h.1 (plain 1));
  }

given-map : {A B : Type 0} (f : A → B) (o : Option A) → given (map_option f o) ≡ given o
given-map f none = refl
given-map f (some a) = refl

-- After each of the four columns nothing was pushed yet, or the head is settled.
abbrev Stage : QueryBuilder → Bool → Type 0
Stage b false = b ≡ start
Stage b true = Pushed b

module _ (env : Env) (plain : PlainPlaceholders env) where
  push_if_some-Stage :
      (c : ℕ) (column : Text) (b : QueryBuilder) (before : Bool) (now : Option Bound)
      → c ≢ b','
      → NoU (c ∷ column)
      → Stage b before
      → Stage (push_if_some env (c ∷ column) now b) (before || given now)
  push_if_some-Stage c column b true now n h p =
      push_if_some-Pushed env plain (c ∷ column) b now h p
  push_if_some-Stage c column b false (some v) n h e =
      rw e (push_if_some-start env plain c column v n h)
  push_if_some-Stage c column b false none n h e = e

  close-Stage :
      (b : QueryBuilder) (v : Bound) (pushed : Bool)
      → Stage b pushed
      → contains
          (push_bind env v (push (text ", updated_at = NOW() WHERE post_id = ") b)).sql
          no_fields
        ≡ not pushed
  unfolding contains starts_with
  close-Stage b v false e = rw e
  close-Stage b v true p =
      let tail = text ", updated_at = NOW() WHERE post_id = " in
      not-contains-Pushed (push_bind env v (push tail b)) (
        Pushed-append env plain (push tail b) (push_bind env v (push tail b))
          (env.placeholder (suc (length b.bound))) refl (plain (suc (length b.bound)))
          (Pushed-append env plain b (push tail b) tail refl (omega arith) p))

  -- The text of the built statement holds the text of an UPDATE of no column exactly when the
  -- request gives none of the four fields; no placeholder holds a capital U.
  pub contains-build_update :
      (article : ArticleEditRequest)
      → contains (build_update env article).sql no_fields
        ≡ not (
            given article.title
            || given article.excerpt
            || given article.author
            || given article.sections)
  unfolding build_update
  contains-build_update article =
      let one =
        push_if_some-Stage b't' (text "itle= ") start false (map_option text_value article.title)
          (omega arith) (omega arith) refl in
      let two =
        push_if_some-Stage b'e' (text "xcerpt= ") _ _ (map_option text_value article.excerpt)
          (omega arith) (omega arith) one in
      let three =
        push_if_some-Stage b'a' (text "uthor= ") _ _ (map_option text_value article.author)
          (omega arith) (omega arith) two in
      let four =
        push_if_some-Stage b's' (text "ections = ") _ _
          (map_option (λ s. json_value (env.sections_to_json s)) article.sections) (omega arith)
          (omega arith) three in
      close-Stage _ (id_value article.post_id) _ four
      ∙ rw
          (
            given-map text_value article.title,
            given-map text_value article.excerpt,
            given-map text_value article.author,
            given-map (λ s. json_value (env.sections_to_json s)) article.sections,
          )
          (ground arith)

-- The columns that the built statement sets, by the fields of the request.
edited-given :
    (env : Env) (id : ℕ) (title : Option Text) (sections : Option (List ArticleSection))
    (excerpt author : Option Text) (row : ArticleRecordRaw)
    → edited env
        (record {
          post_id = id;
          title = title;
          sections = sections;
          excerpt = excerpt;
          author = author;
        })
        row
      ≡ record row {
        title = unwrap_or title row.title;
        excerpt = unwrap_or excerpt row.excerpt;
        author = unwrap_or author row.author;
        sections = unwrap_or (map_option env.sections_to_json sections) row.sections;
        updated_at = env.now;
      }
unfolding edited text_eq
edited-given env id none none none none row = refl
edited-given env id none none none (some a) row = refl
edited-given env id none none (some e) none row = refl
edited-given env id none none (some e) (some a) row = refl
edited-given env id none (some s) none none row = refl
edited-given env id none (some s) none (some a) row = refl
edited-given env id none (some s) (some e) none row = refl
edited-given env id none (some s) (some e) (some a) row = refl
edited-given env id (some t) none none none row = refl
edited-given env id (some t) none none (some a) row = refl
edited-given env id (some t) none (some e) none row = refl
edited-given env id (some t) none (some e) (some a) row = refl
edited-given env id (some t) (some s) none none row = refl
edited-given env id (some t) (some s) none (some a) row = refl
edited-given env id (some t) (some s) (some e) none row = refl
edited-given env id (some t) (some s) (some e) (some a) row = refl

pub edited-columns :
    (env : Env) (article : ArticleEditRequest) (row : ArticleRecordRaw)
    → edited env article row ≡ record row {
      title = unwrap_or article.title row.title;
      excerpt = unwrap_or article.excerpt row.excerpt;
      author = unwrap_or article.author row.author;
      sections = unwrap_or (map_option env.sections_to_json article.sections) row.sections;
      updated_at = env.now;
    }
edited-columns env article row =
    edited-given env article.post_id article.title article.sections article.excerpt article.author
      row
