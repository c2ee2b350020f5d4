-- ===== src/Blog/Rows.antt =====
-- What the handlers of one article have in common: finding the row, and answering by the number of
-- rows that a statement affected.
use portfolio_server.Prelude.{ℕ, zero, suc, text, Bool, ◌==◌, Result, ok, err}
use portfolio_server.Http.{Response}
use portfolio_server.Errors.Sql.{msg_num}
use portfolio_server.Errors.Blog.{post_not_found, unexpected_error}
use portfolio_server.Errors.Web.{WebError, blog}
use portfolio_server.Types.Article.{ArticleRecordRaw}

-- `WHERE post_id = …`
abbrev pub has_id : ℕ → ArticleRecordRaw → Bool
has_id id row = row.post_id == id

-- `match result.rows_affected()`
abbrev pub by_rows : Response → ℕ → Result Response WebError
by_rows done zero = err (blog post_not_found)
by_rows done (suc zero) = ok done
by_rows done (suc (suc n)) =
    err (blog (unexpected_error (msg_num (text "Unexpected rows affected: ") (suc (suc n)))))
