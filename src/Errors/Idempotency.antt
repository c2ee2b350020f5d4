-- ===== src/Errors/Idempotency.antt =====
-- src/errors/idempotency.rs
use portfolio_server.Prelude.{ℕ}
use portfolio_server.Errors.Sql.{SqlError, Anyhow}

pub data IdempotencyError : Type 0 where
  missing_idempotency_key invalid_key_format request_in_flight : IdempotencyError
  database_error : SqlError → IdempotencyError
  unexpected_error : Anyhow → IdempotencyError

unfoldable pub status_code : IdempotencyError → ℕ
status_code missing_idempotency_key = 400
status_code invalid_key_format = 400
status_code request_in_flight = 409
status_code (database_error e) = 500
status_code (unexpected_error e) = 500
