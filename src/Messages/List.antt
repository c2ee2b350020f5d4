-- ===== src/Messages/List.antt =====
-- src/routes/admin/dashboard/messages/get.rs. The answer has status 200 and the record that is
-- given back for its body.
use portfolio_server.Prelude.{ℤ, pos, List, length, none, some, Result, ok, err, text, order_desc}
use portfolio_server.Errors.Sql.{msg}
use portfolio_server.Errors.Message.{total_count}
use portfolio_server.Errors.Web.{WebError, message_get, error_with}
use portfolio_server.Env.{Env, count_messages, select_messages}
use portfolio_server.Db.{Db, MessageRow, window}
use portfolio_server.Types.Pagination.{
  PaginationQuery, PaginationMeta, page_size, offset, from_total,
}

-- Its fields are those of the column list, all of the row.
pub record MessagesResponse : Type 0 where
  pub messages : List MessageRow
  pub page : ℤ
  pub page_size : ℤ
  pub total_items : ℤ
  pub total_pages : ℤ

abbrev failed : WebError
failed = error_with 500 (msg (text "Failed to retrieve messages"))

abbrev pub messages_response : List MessageRow → PaginationMeta → MessagesResponse
messages_response messages meta = record {
  messages = messages;
  page = meta.page;
  page_size = meta.page_size;
  total_items = meta.total_items;
  total_pages = meta.total_pages;
}

unfoldable pub get_messages : Env → PaginationQuery → Db → Result MessagesResponse WebError
get_messages env q pool = elim (env.fault count_messages) [
  | some e ↦ err (message_get total_count)
  | none ↦ elim (env.fault select_messages) [
    | some e ↦ err failed
    | none ↦
        elim (window (page_size q) (offset q) (order_desc (λ row. row.created_at) pool.messages)) [
          | none ↦ err failed
          | some messages ↦
              ok (messages_response messages (from_total (pos (length pool.messages)) q))
        ]
  ]
]
