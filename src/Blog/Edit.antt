-- ===== src/Blog/Edit.antt =====
-- `edit_article` of src/routes/admin/dashboard/blog/patch.rs, with the UPDATE that it builds.
use portfolio_server.Prelude.{
  ℕ, suc, Text, text, Bool, true, false, ◌++◌, Option, none, some, Result, ok, err, count,
  update_where, contains, if◌then◌else◌, [], ◌∷◌, length, List, map_option, text_eq,
}
use portfolio_server.Http.{Request, Response, finish, Json}
use portfolio_server.Errors.Sql.{sqlx, msg}
use portfolio_server.Errors.Blog.{bad_request, unexpected_error}
use portfolio_server.Errors.Web.{WebError, blog, idempotency}
use portfolio_server.Env.{Env, update_post}
use portfolio_server.Db.{Db}
use portfolio_server.Types.Article.{ArticleRecordRaw, ArticleEditRequest, validate_edit}
use portfolio_server.Blog.Rows.{has_id, by_rows}
use portfolio_server.Idempotency.Execute.{execute_idempotent}

-- A value that a statement binds.
pub data Bound : Type 0 where
  text_value : Text → Bound
  json_value : Json → Bound
  id_value : ℕ → Bound

-- `sqlx::QueryBuilder` with its `separated(", ")`: the text so far, the texts that were pushed as
-- items, the bound values, and whether a separator is due before the next item.
pub record QueryBuilder : Type 0 where
  pub sql : Text
  pub items : List Text
  pub bound : List Bound
  pub separate : Bool

abbrev pub push : Text → QueryBuilder → QueryBuilder
push t b = record b { sql = b.sql ++ t }

abbrev pub push_bind : Env → Bound → QueryBuilder → QueryBuilder
push_bind env v b = record b {
  sql = b.sql ++ env.placeholder (suc (length b.bound));
  bound = b.bound ++ (v ∷ []);
}

abbrev pub push_separated : Text → QueryBuilder → QueryBuilder
push_separated t b = record b {
  sql = b.sql ++ (if b.separate then text ", " ++ t else t);
  items = b.items ++ (t ∷ []);
  separate = true;
}

-- `push_if_some!`, whose first argument is the column with its sign of assignment
abbrev pub push_if_some : Env → Text → Option Bound → QueryBuilder → QueryBuilder
push_if_some env column (some v) b = push_bind env v (push_separated column b)
push_if_some env column none b = b

abbrev pub given {ℓ} : {A : Type ℓ} → Option A → Bool
given none = false
given (some a) = true

-- `QueryBuilder::new(…)`
abbrev pub start : QueryBuilder
start = record { sql = text "UPDATE blog_posts SET "; items = []; bound = []; separate = false }

unfoldable pub build_update : Env → ArticleEditRequest → QueryBuilder
build_update env article =
    let b = start in
    let b = push_if_some env (text "title= ") (map_option text_value article.title) b in
    let b = push_if_some env (text "excerpt= ") (map_option text_value article.excerpt) b in
    let b = push_if_some env (text "author= ") (map_option text_value article.author) b in
    let b =
      push_if_some env (text "sections = ")
        (map_option (λ s. json_value (env.sections_to_json s)) article.sections) b in
    push_bind env (id_value article.post_id) (push (text ", updated_at = NOW() WHERE post_id = ") b)

abbrev pub no_fields : Text
no_fields = text "UPDATE blog_posts SET , updated_at = NOW() WHERE post_id = "

-- The assignment of a value to the column that an item of the statement names.
unfoldable assign : Text → Bound → ArticleRecordRaw → ArticleRecordRaw
assign item (text_value t) row =
    if text_eq item (text "title= ")
    then record row { title = t }
    else if text_eq item (text "excerpt= ")
    then record row { excerpt = t }
    else if text_eq item (text "author= ")
    then record row { author = t }
    else row
assign item (json_value j) row =
    if text_eq item (text "sections = ") then record row { sections = j } else row
assign item (id_value id) row = row

-- The items of the statement take the bound values in their order.
unfoldable assign_all : List Text → List Bound → ArticleRecordRaw → ArticleRecordRaw
unfolding assign
assign_all [] values row = row
assign_all (item ∷ items) [] row = row
assign_all (item ∷ items) (v ∷ values) row = assign_all items values (assign item v row)

-- What the built statement does to a row.
unfoldable pub edited : Env → ArticleEditRequest → ArticleRecordRaw → ArticleRecordRaw
unfolding build_update assign_all
edited env article row =
    let b = build_update env article in
    record (assign_all b.items b.bound row) { updated_at = env.now }

unfoldable pub process_edit_article : Env → ArticleEditRequest → Db → Result Response WebError × Db
process_edit_article env article tx =
    if contains (build_update env article).sql no_fields
    then (err (blog (bad_request (msg (text "No fields provided to update")))), tx)
    else elim (env.fault update_post) [
      | some e ↦ (err (blog (unexpected_error (sqlx e))), tx)
      | none ↦ (
        by_rows (finish 202) (count (has_id article.post_id) tx.blog_posts),
        record tx {
          blog_posts = update_where (has_id article.post_id) (edited env article) tx.blog_posts;
        },
      )
    ]

unfoldable pub edit_article :
    Env → Request → Db → ℕ → ArticleEditRequest → Result Response WebError × Db
edit_article env request pool user_id article = elim (validate_edit article) [
  | err e ↦ (err (blog e), pool)
  | ok _ ↦
      execute_idempotent idempotency env request pool (some user_id)
        (process_edit_article env article)
]
