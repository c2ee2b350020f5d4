-- ===== src/Idempotency/Store.antt =====
-- src/idempotency/persistence.rs, the half that works on the table: claiming a key, storing a
-- response and reading it back. A transaction is the copy of the tables that it works on; what it
-- wrote is in the pool's tables only after its commit.
use portfolio_server.Prelude.{
  ℕ, ◌-◌, Text, Bytes, Bool, ◌&&◌, Option, none, some, ◌∷◌, Result, ok, err, text, text_eq,
  option_eq, is_some, ltb, leb, any, find?, update_where, if◌then◌else◌, ℤ, pos, negsuc,
}
use portfolio_server.Http.{Headers, Response, bytes}
use portfolio_server.Errors.Sql.{Anyhow, msg, sqlx}
use portfolio_server.Errors.Idempotency.{
  IdempotencyError, request_in_flight, database_error, unexpected_error,
}
use portfolio_server.Env.{Env, begin, claim_key, select_saved, store_response, commit, with_fault}
use portfolio_server.Db.{IdempotencyRow, Db}
use portfolio_server.Idempotency.Key.{IdempotencyKey, as_ref}

pub data NextAction : Type 0 where
  start_processing : NextAction
  return_saved_response : Response → NextAction

-- The caller's slot: `idempotency_key = $2 AND operation = $6 AND (user_id = $1 OR (user_id IS
-- NULL AND $1 IS NULL))`, which is also what the two unique indices make unique.
unfoldable pub in_slot : Option ℕ → IdempotencyKey → Text → IdempotencyRow → Bool
in_slot user_id key operation row =
    text_eq row.idempotency_key (as_ref key)
    && text_eq row.operation operation
    && option_eq row.user_id user_id

-- `u16::cast_signed`
unfoldable pub cast_signed : ℕ → ℤ
cast_signed n = if ltb n 32768 then pos n else negsuc (65535 - n)

-- `u16::try_from(i16)`, then `StatusCode::from_u16`
unfoldable pub status_from : ℤ → Result ℕ Anyhow
status_from (pos n) =
    if leb 100 n && ltb n 1000 then ok n else err (msg (text "invalid status code"))
status_from (negsuc n) = err (msg (text "out of range integral type conversion attempted"))

-- The response that is rebuilt from the columns, each of which must not be NULL.
abbrev pub rebuild : Option Headers → Option Bytes → ℕ → Result Response Anyhow
rebuild none b s = err (msg (text "unexpected null; try decoding as an `Option`"))
rebuild (some hs) none s = err (msg (text "unexpected null; try decoding as an `Option`"))
rebuild (some hs) (some b) s = ok (record { status = s; headers = hs; body = bytes b })

abbrev pub build_on : Option Headers → Option Bytes → Result ℕ Anyhow → Result Response Anyhow
build_on hs b (ok s) = rebuild hs b s
build_on hs b (err e) = err e

abbrev pub row_response : Option IdempotencyRow → Result (Option Response) Anyhow
row_response none = ok none
row_response (some row) = elim row.response_status_code [
  | none ↦ ok none
  | some code ↦ elim (build_on row.response_headers row.response_body (status_from code)) [
    | ok r ↦ ok (some r)
    | err e ↦ err e
  ]
]

unfoldable pub get_saved_response :
    Env → Db → IdempotencyKey → Option ℕ → Text → Result (Option Response) Anyhow
get_saved_response env pool key user_id operation = with_fault env select_saved sqlx (
    row_response (
      find? (λ row. in_slot user_id key operation row && is_some row.response_status_code)
        pool.idempotency))

-- The row that the INSERT adds.
abbrev pub claim : Env → IdempotencyKey → Option ℕ → Text → IdempotencyRow
claim env key user_id operation = record {
  user_id = user_id;
  idempotency_key = as_ref key;
  operation = operation;
  response_status_code = none;
  response_headers = none;
  response_body = none;
  created_at = env.now;
}

abbrev pub saved_or_in_flight :
    Result (Option Response) Anyhow → Result (NextAction × Option Db) IdempotencyError
saved_or_in_flight (ok (some r)) = ok (return_saved_response r, none)
saved_or_in_flight (ok none) = err request_in_flight
saved_or_in_flight (err e) = err (unexpected_error e)

unfoldable pub try_processing :
    Env → Db → IdempotencyKey → Option ℕ → Text → Result (NextAction × Option Db) IdempotencyError
try_processing env pool key user_id operation = with_fault env begin database_error (
    with_fault env claim_key database_error (
      if any (in_slot user_id key operation) pool.idempotency
      then saved_or_in_flight (get_saved_response env pool key user_id operation)
      else ok (
        start_processing,
        some (record pool { idempotency = claim env key user_id operation ∷ pool.idempotency }),
      )))

-- The UPDATE of `save_response`.
abbrev pub fill : ℕ → Headers → Bytes → IdempotencyRow → IdempotencyRow
fill status headers body row = record row {
  response_status_code = some (cast_signed status);
  response_headers = some headers;
  response_body = some body;
}

abbrev pub stored : Db → IdempotencyKey → Option ℕ → Text → Response → Bytes → Db
stored tx key user_id operation r body = record tx {
  idempotency =
      update_where (in_slot user_id key operation) (fill r.status r.headers body) tx.idempotency;
}

-- The result, and the tables after the transaction has ended. A COMMIT that fails is taken to have
-- committed nothing; one whose confirmation is lost is not told apart from it.
unfoldable pub save_response :
    Env
    → Db
    → Db
    → IdempotencyKey
    → Option ℕ
    → Text
    → Response
    → Result Response IdempotencyError × Db
save_response env pool tx key user_id operation r = elim (env.to_bytes r.body) [
  | err e ↦ (err (unexpected_error (msg e)), pool)
  | ok body ↦ elim (env.fault store_response) [
    | some e ↦ (err (database_error e), pool)
    | none ↦ elim (env.fault commit) [
      | some e ↦ (err (database_error e), pool)
      | none ↦ (ok (record r { body = bytes body }), stored tx key user_id operation r body)
    ]
  ]
]
