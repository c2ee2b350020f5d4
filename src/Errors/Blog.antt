-- ===== src/Errors/Blog.antt =====
-- src/errors/blog.rs
use portfolio_server.Prelude.{ℕ, Text}
use portfolio_server.Errors.Sql.{Anyhow}

pub data BlogError : Type 0 where
  query_failed post_not_found : BlogError
  bad_request : Anyhow → BlogError
  invalid_content : Text → BlogError
  duplicate_post slug_conflict : BlogError
  validation_error : Text → BlogError
  unexpected_error : Anyhow → BlogError

unfoldable pub status_code : BlogError → ℕ
status_code query_failed = 500
status_code post_not_found = 404
status_code (bad_request e) = 400
status_code (invalid_content e) = 400
status_code duplicate_post = 409
status_code slug_conflict = 409
status_code (validation_error e) = 400
status_code (unexpected_error e) = 500
