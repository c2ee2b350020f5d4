-- ===== src/Idempotency/Execute.antt =====
-- src/idempotency/persistence.rs, the flow: `execute_idempotent_with` and its callers' entry
-- `execute_idempotent`. The actions run on the tables of the open transaction.
use portfolio_server.Prelude.{ℕ, Text, ◌++◌, Option, none, some, Result, ok, err, map_err, text}
use portfolio_server.Http.{Request, Response, get}
use portfolio_server.Errors.Sql.{msg}
use portfolio_server.Errors.Idempotency.{
  IdempotencyError, missing_idempotency_key, invalid_key_format, unexpected_error,
}
use portfolio_server.Env.{Env}
use portfolio_server.Db.{Db}
use portfolio_server.Idempotency.Key.{IdempotencyKey, try_from}
use portfolio_server.Idempotency.Store.{
  NextAction, start_processing, return_saved_response, try_processing, save_response,
}

abbrev pub header_text : Env → Request → Text → Option Text
header_text env request name = elim (get name request.headers) [
  | none ↦ none
  | some v ↦ env.to_str v
]

unfoldable pub get_idempotency_key : Env → Request → Result IdempotencyKey IdempotencyError
get_idempotency_key env request = elim (header_text env request (text "idempotency-key")) [
  | none ↦ err missing_idempotency_key
  | some s ↦ map_err (λ e. invalid_key_format) (try_from s)
]

-- `format!("{}:{}", request.method().as_str(), request.path())`
abbrev pub operation_of : Request → Text
operation_of request = request.method ++ (text ":" ++ request.uri_path)

-- What `process_fn` does with a key, a user and an operation, and with the pool's tables, which it may
-- write to.
abbrev pub Process : Type 0 → Type 0
Process E = Db → IdempotencyKey → Option ℕ → Text → Result (NextAction × Option Db) E × Db

abbrev pub Action : Type 0 → Type 0
Action E = Db → Result Response E × Db

module _ {E : Type 0} (from : IdempotencyError → E) (env : Env) where
  -- After the action: its error drops the transaction, its response is stored in it.
  abbrev pub finish_action :
      Db → IdempotencyKey → Option ℕ → Text → Result Response E × Db → Result Response E × Db
  finish_action pool key user_id operation (err e, tx) = (err e, pool)
  finish_action pool key user_id operation (ok r, tx) =
      let (saved, after) = save_response env pool tx key user_id operation r in
      (map_err from saved, after)

  abbrev pub proceed_with :
      Db
      → IdempotencyKey
      → Option ℕ
      → Text
      → Action E
      → NextAction × Option Db
      → Result Response E × Db
  proceed_with pool key user_id operation action (return_saved_response r, tx) = (ok r, pool)
  proceed_with pool key user_id operation action (start_processing, some tx) =
      finish_action pool key user_id operation (action tx)
  proceed_with pool key user_id operation action (start_processing, none) =
      (err (from (unexpected_error (msg (text "Missing transaction for StartProcessing")))), pool)

  -- The result, and the pool's tables afterwards.
  unfoldable pub execute_idempotent_with :
      Request → Db → Option ℕ → Action E → Process E → Result Response E × Db
  execute_idempotent_with request pool user_id action process_fn =
      elim (get_idempotency_key env request) [
        | err e ↦ (err (from e), pool)
        | ok key ↦
            let (result, pool') = process_fn pool key user_id (operation_of request) in
            elim result [
              | err e ↦ (err e, pool')
              | ok next ↦ proceed_with pool' key user_id (operation_of request) action next
            ]
      ]

  unfoldable pub execute_idempotent : Request → Db → Option ℕ → Action E → Result Response E × Db
  unfolding execute_idempotent_with
  execute_idempotent request pool user_id action =
      execute_idempotent_with request pool user_id action
        (λ pool' key u operation. (map_err from (try_processing env pool' key u operation), pool'))
