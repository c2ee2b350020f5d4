-- ===== src/Messages/Patch.antt =====
-- src/routes/admin/dashboard/messages/patch.rs
use portfolio_server.Prelude.{
  ℕ, zero, suc, text, Bool, ◌==◌, count, update_where, none, some, Result, ok, err,
}
use portfolio_server.Http.{Request, Response, finish}
use portfolio_server.Errors.Sql.{sqlx, context, msg_num}
use portfolio_server.Errors.Message.{message_not_found, unexpected_error}
use portfolio_server.Errors.Web.{WebError, message_patch, idempotency}
use portfolio_server.Env.{Env, update_message}
use portfolio_server.Db.{Db, MessageRow}
use portfolio_server.Idempotency.Execute.{execute_idempotent}

pub record MessagePatchRequest : Type 0 where
  pub message_id : ℕ
  pub read : Bool

-- `WHERE message_id = $1`
abbrev pub is_message : ℕ → MessageRow → Bool
is_message id row = row.message_id == id

abbrev pub set_read : Bool → MessageRow → MessageRow
set_read read row = record row { read_message = some read }

-- `match result.rows_affected()`
abbrev pub by_patched : ℕ → Result Response WebError
by_patched zero = err (message_patch message_not_found)
by_patched (suc zero) = ok (finish 202)
by_patched (suc (suc n)) =
    err
      (message_patch (unexpected_error (msg_num (text "Unexpected rows affected: ") (suc (suc n)))))

unfoldable pub process_patch_message :
    Env → MessagePatchRequest → Db → Result Response WebError × Db
process_patch_message env message tx = elim (env.fault update_message) [
  | some e ↦ (
    err (message_patch (unexpected_error (context (text "Message update query failed") (sqlx e)))),
    tx,
  )
  | none ↦ (
    by_patched (count (is_message message.message_id) tx.messages),
    record tx {
      messages = update_where (is_message message.message_id) (set_read message.read) tx.messages;
    },
  )
]

unfoldable pub patch_message :
    Env → Request → Db → ℕ → MessagePatchRequest → Result Response WebError × Db
patch_message env request pool user_id message =
    execute_idempotent idempotency env request pool (some user_id)
      (process_patch_message env message)
