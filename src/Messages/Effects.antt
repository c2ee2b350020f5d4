-- ===== src/Messages/Effects.antt =====
-- What reading and marking messages does, src/routes/admin/dashboard/messages.
use portfolio_server.Errors.Message.{message_not_found}
use portfolio_server.Errors.Web.{message_patch, answer_status, status}
use portfolio_server.Http.{finish}
use portfolio_server.Db.{Db, MessageRow}
use portfolio_server.Env.{Env, update_message, count_messages, select_messages}
use portfolio_server.Prelude.{
  ℕ, List, arith, count, ◌≡◌, ◌≤◌, none, if◌then◌else◌, any, ◌^◌, ok, take, drop, err, ◌-◌, ◌*◌,
  find?, Bool-cases, Bool, true, false, ap, ◌∙◌, ◌==◌, some, order_desc, map_option, pos, inl,
  length, count_of_any, find?-update_where, refl, inr, count_of_any-false, ℤ,
}
use portfolio_server.Messages.Patch.{
  process_patch_message, is_message, set_read, by_patched, MessagePatchRequest,
}
use portfolio_server.Messages.List.{get_messages, MessagesResponse, messages_response}
use portfolio_server.Types.Pagination.Bounds.{page_number, size_number, window_exact}
use portfolio_server.Types.Pagination.{PaginationQuery, from_total, limit}
use portfolio_server.Idempotency.Replay.{KeepsKeys}

by_patched_unique :
    (id : ℕ) (rows : List MessageRow)
    → count (is_message id) rows ≤ 1
    → by_patched (count (is_message id) rows) ≡ (
        if any (is_message id) rows then ok (finish 202) else err (message_patch message_not_found))
by_patched_unique id rows h = elim (Bool-cases (any (is_message id) rows)) [
  | inl there ↦
      let one : count (is_message id) rows ≡ 1 =
        omega (arith, count_of_any (is_message id) rows there) in
      rw (there, one)
  | inr missing ↦ rw (missing, count_of_any-false (is_message id) rows missing)
]

status_by_patched :
    (there : Bool)
    → answer_status (if there then ok (finish 202) else err (message_patch message_not_found))
      ≡ (if there then 202 else 404)
unfolding status
status_by_patched true = refl
status_by_patched false = refl

-- Marking a message answers 202 where it exists and 404 where it does not; it sets the mark of that
-- message, and every other message stays as it was. The identifiers are unique and the statement
-- reaches the database.
pub process_patch_message_effect :
    (env : Env) (tx : Db) (j : ℕ) (message : MessagePatchRequest)
    → env.fault update_message ≡ none
    → count (is_message message.message_id) tx.messages ≤ 1
    → ((process_patch_message env message tx).0 ≡ (
        if any (is_message message.message_id) tx.messages
        then ok (finish 202)
        else err (message_patch message_not_found)))
      × (answer_status (process_patch_message env message tx).0
          ≡ (if any (is_message message.message_id) tx.messages then 202 else 404))
      × (find? (is_message j) (process_patch_message env message tx).1.messages
          ≡ map_option
              (λ row.
                if row.message_id == message.message_id
                then record row { read_message = some message.read }
                else row)
              (find? (is_message j) tx.messages))
unfolding process_patch_message
process_patch_message_effect env tx j message up unique =
    rw (up, process_patch_message)
      (
        by_patched_unique message.message_id tx.messages unique,
        ap answer_status (by_patched_unique message.message_id tx.messages unique)
            ∙ status_by_patched (any (is_message message.message_id) tx.messages),
        find?-update_where (is_message message.message_id) (is_message j) (set_read message.read)
            (λ x. refl) tx.messages,
      )

pub process_patch_message-KeepsKeys :
    (env : Env) (message : MessagePatchRequest) → KeepsKeys (process_patch_message env message)
unfolding process_patch_message
process_patch_message-KeepsKeys env message tx = ground arith

from_total-total_items :
    (total : ℤ) (q : PaginationQuery) → (from_total total q).total_items ≡ total
unfolding from_total
from_total-total_items total q = refl

-- A page of messages with a number of at most 2^58 is answered, with the 1 to 20 messages, latest
-- first, that stand behind those of the pages before it, and the number of all messages. Both
-- statements reach the database.
pub get_messages_page :
    (env : Env) (q : PaginationQuery) (pool : Db)
    → env.fault count_messages ≡ none
    → env.fault select_messages ≡ none
    → page_number q ≤ 2 ^ 58
    → (page : MessagesResponse) × (get_messages env q pool ≡ ok page)
      × (page.messages
          ≡ take (size_number q) (
              drop
                ((page_number q - 1) * size_number q)
                (order_desc (λ row. row.created_at) pool.messages)))
      × (page.total_items ≡ pos (length pool.messages))
unfolding get_messages limit
get_messages_page env q pool counted selected small =
    let (size, start, _, _) = window_exact q small in
    (
      messages_response _ (from_total (pos (length pool.messages)) q),
      rw (counted, selected, size, start, get_messages) refl,
      refl,
      from_total-total_items (pos (length pool.messages)) q,
    )
