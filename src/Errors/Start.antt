-- ===== src/Errors/Start.antt =====
-- How the start of src/main.rs, src/configuration.rs and src/startup.rs may fail.
use portfolio_server.Prelude.{Text, Option, none, some, Result, ok, err}
use portfolio_server.Errors.Sql.{Anyhow}

-- With an error, or in a panic.
pub data Failure : Type 0 where
  failed : Anyhow → Failure
  panics : Text → Failure

abbrev pub or_failed {ℓ} : {A : Type ℓ} → (Anyhow → Anyhow) → Result A Anyhow → Result A Failure
or_failed f (ok a) = ok a
or_failed f (err e) = err (failed (f e))

-- `expect` and `unwrap`.
abbrev pub or_panics {ℓ} : {A : Type ℓ} → Text → Option A → Result A Failure
or_panics why (some a) = ok a
or_panics why none = err (panics why)

abbrev pub expect {ℓ κ} : {A : Type ℓ} {E : Type κ} → Text → Result A E → Result A Failure
expect why (ok a) = ok a
expect why (err e) = err (panics why)
