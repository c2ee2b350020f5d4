-- ===== src/Errors/Auth.antt =====
-- src/errors/authentication.rs
use portfolio_server.Prelude.{ℕ}
use portfolio_server.Errors.Sql.{Anyhow}

pub data AuthError : Type 0 where
  rate_limit_exceeded : AuthError
  invalid_credentials : Anyhow → AuthError
  unexpected_error : Anyhow → AuthError

unfoldable pub status_code : AuthError → ℕ
status_code rate_limit_exceeded = 429
status_code (invalid_credentials e) = 401
status_code (unexpected_error e) = 500
