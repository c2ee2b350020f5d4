-- ===== src/Errors/Sql.antt =====
-- The errors of the libraries that the program passes on: `sqlx::Error`, of which it reads the
-- SQLSTATE code and the message, and `anyhow::Error`.
use portfolio_server.Prelude.{ℕ, Text, Option}

-- `database code message` is an error that Postgres reports, with `message` its `to_string()`.
pub data SqlError : Type 0 where
  database : Option Text → Text → SqlError
  row_not_found : SqlError
  other : Text → SqlError

-- `msg_num t n` is the text `t` with the number `n` behind it.
pub data Anyhow : Type 0 where
  msg : Text → Anyhow
  msg_num : Text → ℕ → Anyhow
  sqlx : SqlError → Anyhow
  context : Text → Anyhow → Anyhow
