-- ===== src/Messages/Delivered.antt =====
-- From the contact form to the inbox: src/routes/contact/post.rs, then
-- src/routes/admin/dashboard/messages/get.rs.
use portfolio_server.Idempotency.Key.{IdempotencyKey}
use portfolio_server.Messages.Effects.{get_messages_page}
use portfolio_server.Idempotency.Execute.{operation_of, get_idempotency_key}
use portfolio_server.Contact.Outcome.{process_new_message-ok}
use portfolio_server.Errors.Web.{idempotency}
use portfolio_server.Idempotency.Outcome.{execute_idempotent-ok, claimed, Replayed}
use portfolio_server.Messages.List.{MessagesResponse, get_messages}
use portfolio_server.Types.Pagination.Bounds.{page_number, page_size_range, size_number}
use portfolio_server.Types.Pagination.{PaginationQuery}
use portfolio_server.Contact.Form.{MessageForm, ValidatedMessage, validate}
use portfolio_server.Db.{Db, MessageRow}
use portfolio_server.Blog.Listing.{All-order_desc}
use portfolio_server.Http.{Request, Response}
use portfolio_server.Env.{Env, count_messages, select_messages}
use portfolio_server.Contact.Post.{
  post_message, MessageRateLimitSettings, new_message, process_new_message,
}
use portfolio_server.Prelude.{
  ℕ, inl, inr, none, ok, refl, ap, insert_desc, List, order_desc, ◌≤◌, All, take, ◌∷◌, ◌≡◌, arith,
  [], suc, zero, ◌⊎◌, pos, length, ◌∙◌, ◌-◌, ◌*◌, some, false, ◌<◌,
}

module _ {A : Type 0} (key : A → ℕ) where
  insert_desc-first :
      (x : A) (ys : List A) → All (λ y. key y ≤ key x) ys → insert_desc key x ys ≡ x ∷ ys
  unfolding insert_desc
  insert_desc-first x [] newest = refl
  insert_desc-first x (y ∷ ys) (older, rest) = ground (arith, older)

  order_desc-newest :
      (x : A) (xs : List A)
      → All (λ y. key y ≤ key x) xs
      → order_desc key (x ∷ xs) ≡ x ∷ order_desc key xs
  unfolding order_desc
  order_desc-newest x xs newest =
      insert_desc-first x (order_desc key xs) (All-order_desc (λ y. key y ≤ key x) key xs newest)

take-head :
    {A : Type 0} (n : ℕ) (x : A) (xs : List A)
    → 1 ≤ n
    → (rest : List A) × (take n (x ∷ xs) ≡ x ∷ rest)
take-head zero x xs h = ([], absurd (omega arith))
take-head (suc n) x xs h = (take n xs, refl)

-- Earlier is not later.
All-weaken :
    (n : ℕ) (rows : List MessageRow)
    → All (λ row. row.created_at < n) rows
    → All (λ row. row.created_at ≤ n) rows
All-weaken n [] past = tt
All-weaken n (row ∷ rows) (first, rest) = (omega (arith, first), All-weaken n rows rest)

-- A contact message that is answered gets the response that is stored under its key and changes
-- nothing, or the first page of the inbox shows it, unread and as validated, before all others, and
-- counts one message more. All stored messages are from before the clock's time, and the statements
-- of the inbox reach the database.
pub post_message-get_messages :
    (env env' : Env) (request : Request) (pool after : Db) (config : MessageRateLimitSettings)
    (form : MessageForm) (r : Response) (q : PaginationQuery)
    → post_message env request pool config form ≡ (ok r, after)
    → All (λ row. row.created_at < env.now) pool.messages
    → env'.fault count_messages ≡ none
    → env'.fault select_messages ≡ none
    → page_number q ≡ 1
    → ((key : IdempotencyKey) × (get_idempotency_key env request ≡ ok key)
        × Replayed env pool after key none (operation_of request) r)
      ⊎ ((v : ValidatedMessage) × (page : MessagesResponse) × (rest : List MessageRow) × (validate
              env form
            ≡ ok v)
          × (get_messages env' q after ≡ ok page)
          × (page.messages
              ≡ record {
                message_id = env.new_uuid;
                email = v.email;
                sender_name = v.sender_name;
                message_text = v.message_text;
                created_at = env.now;
                read_message = some false;
              }
                ∷ rest)
          × (page.total_items ≡ pos (suc (length pool.messages))))
unfolding post_message
post_message-get_messages env env' request pool after config form r q posted past counted selected
      first =
    let action = process_new_message env config form in
    let (key, valid_key, what) =
      execute_idempotent-ok idempotency env request pool after none action r posted in
    elim what [
      | inl was ↦ inl (key, valid_key, was)
      | inr was ↦
          let (v, valid, passed, fresh, stored_it, status, limits) =
            process_new_message-ok env config form
              (claimed env pool key none (operation_of request)) was.tx was.answer was.ran in
          let kept : after.messages ≡ new_message env v ∷ pool.messages =
            ap (λ db. db.messages) was.committed ∙ stored_it in
          let (page, got, shows, counts) =
            get_messages_page env' q after counted selected (omega (arith, first)) in
          let sorted : order_desc (λ row. row.created_at) after.messages
              ≡ new_message env v ∷ order_desc (λ row. row.created_at) pool.messages =
            rw kept (
              order_desc-newest (λ row. row.created_at) (new_message env v) pool.messages
                (All-weaken env.now pool.messages past)) in
          let (size, low, high) = page_size_range q in
          let start : (page_number q - 1) * size_number q ≡ 0 =
            omega (arith, ap (λ (t : ℕ). (t - 1) * size_number q) first) in
          let (rest, cut) =
            take-head (size_number q) (new_message env v)
              (order_desc (λ row. row.created_at) pool.messages) low in
          inr (
            v,
            page,
            rest,
            valid,
            got,
            shows ∙ rw (sorted, start) cut,
            counts ∙ ap (λ rows. pos (length rows)) kept,
          )
    ]
