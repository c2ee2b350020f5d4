-- ===== src/Contact/Post.antt =====
-- src/routes/contact/post.rs: `post_message`, with the trigger of
-- migrations/20260206152500_add_message_deduplication.sql that watches its INSERT.
use portfolio_server.Prelude.{
  ℕ, ◌+◌, Text, text, Bool, true, false, not, ◌==◌, ◌&&◌, any, ltb, text_eq, contains,
  if◌then◌else◌, none, some, Result, ok, err, ◌∷◌,
}
use portfolio_server.Http.{Json, Request, Response}
use portfolio_server.Errors.Sql.{SqlError, database, row_not_found, other, sqlx, context}
use portfolio_server.Errors.Message.{rate_limit_exceeded, duplicate_message, unexpected_error}
use portfolio_server.Errors.Web.{WebError, contact, idempotency, panicked}
use portfolio_server.Env.{Env, insert_message, check_rate_limit, respond, unique_violation}
use portfolio_server.Db.{Db, MessageRow}
use portfolio_server.Contact.Form.{MessageForm, ValidatedMessage, validate}
use portfolio_server.Contact.RateLimit.{check_email_rate_limit}
use portfolio_server.Idempotency.Execute.{execute_idempotent}

-- Two `usize` of the configuration.
pub record MessageRateLimitSettings : Type 0 where
  pub max_messages : ℕ
  pub window_minutes : ℕ

-- The serialised `MessageResponse`.
abbrev pub message_response : Env → Text → ℕ → Json
message_response env message id =
    Json.field (text "message") (Json.str message)
      (Json.field (text "message_id") (Json.str (env.uuid_text id)) Json.end)

abbrev pub new_message : Env → ValidatedMessage → MessageRow
new_message env v = record {
  message_id = env.new_uuid;
  email = v.email;
  sender_name = v.sender_name;
  message_text = v.message_text;
  created_at = env.now;
  read_message = some false;
}

-- What the trigger takes for the same message.
abbrev pub is_same : Env → MessageRow → MessageRow → Bool
is_same env new old =
    text_eq old.email new.email && text_eq (env.md5 old.message_text) (env.md5 new.message_text)

-- `check_duplicate_message`
abbrev pub is_duplicate : Env → MessageRow → MessageRow → Bool
is_duplicate env new old =
    is_same env new old
    && ltb env.now (old.created_at + 3600)
    && not (old.message_id == new.message_id)

-- The trigger raises an exception, of SQLSTATE P0001.
abbrev pub raised : Env → SqlError
raised env =
    database (some (text "P0001"))
      (env.display_db (text "Duplicate message detected within 1 hour window"))

-- `execute` of the INSERT: the trigger, then the primary key.
unfoldable pub insert_message_row : Env → MessageRow → Db → Result (Unit {0}) SqlError × Db
insert_message_row env row tx = elim (env.fault insert_message) [
  | some e ↦ (err e, tx)
  | none ↦
      if any (is_duplicate env row) tx.messages
      then (err (raised env), tx)
      else if any (λ old. old.message_id == row.message_id) tx.messages
      then (err (unique_violation env), tx)
      else (ok tt, record tx { messages = row ∷ tx.messages })
]

-- `to_string()` of an error
abbrev pub to_string : SqlError → Text
to_string (database code message) = message
to_string row_not_found =
    text "no rows returned by a query that expected to return at least one row"
to_string (other message) = message

abbrev pub message_answer : Env → Result (Unit {0}) SqlError → Result Response WebError
message_answer env (ok _) =
    ok (respond env 202 (message_response env (text "Message received successfully") env.new_uuid))
message_answer env (err e) =
    if contains (to_string e) (text "Duplicate message detected")
    then err (contact duplicate_message)
    else err (contact (unexpected_error (sqlx e)))

unfoldable pub insert_validated : Env → ValidatedMessage → Db → Result Response WebError × Db
unfolding insert_message_row
insert_validated env v tx =
    let (result, tx') = insert_message_row env (new_message env v) tx in
    (message_answer env result, tx')

-- `i32::try_from(n).is_ok()`
abbrev pub fits_i32 : ℕ → Bool
fits_i32 n = ltb n 2147483648

-- The call of `check_email_rate_limit`.
unfoldable pub query_rate : Env → MessageRateLimitSettings → Text → Db → Result Bool WebError × Db
unfolding check_email_rate_limit
query_rate env config email tx =
    if not (fits_i32 config.max_messages)
    then (err (panicked (text "Failed to cast config.max_messages")), tx)
    else if not (fits_i32 config.window_minutes)
    then (err (panicked (text "Failed to cast config.window_minutes")), tx)
    else elim (env.fault check_rate_limit) [
      | some e ↦ (err (contact (unexpected_error (context (text "Unexpected error") (sqlx e)))), tx)
      | none ↦
          let (rate_ok, rows) =
            check_email_rate_limit env.now email config.max_messages config.window_minutes
              tx.rate_limits in
          (ok rate_ok, record tx { rate_limits = rows })
    ]

abbrev pub if_rate_ok :
    Env → ValidatedMessage → Result Bool WebError × Db → Result Response WebError × Db
if_rate_ok env v (ok true, tx) = insert_validated env v tx
if_rate_ok env v (ok false, tx) = (err (contact rate_limit_exceeded), tx)
if_rate_ok env v (err e, tx) = (err e, tx)

unfoldable pub process_new_message :
    Env → MessageRateLimitSettings → MessageForm → Db → Result Response WebError × Db
unfolding validate query_rate insert_validated
process_new_message env config message tx = elim (validate env message) [
  | err e ↦ (err (contact e), tx)
  | ok v ↦ if_rate_ok env v (query_rate env config v.email tx)
]

unfoldable pub post_message :
    Env → Request → Db → MessageRateLimitSettings → MessageForm → Result Response WebError × Db
post_message env request pool config message =
    execute_idempotent idempotency env request pool none (process_new_message env config message)
