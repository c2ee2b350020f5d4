-- ===== src/Contact/Outcome.antt =====
-- What `process_new_message` of src/routes/contact/post.rs answers.
use portfolio_server.Errors.Web.{status, answer_status}
use portfolio_server.Prelude.{
  ◌≡◌, ok, any, true, ◌<◌, false, none, ◌∷◌, Result-cases, text, inr, contains, arith, inl, List,
  ◌==◌, text_eq, find?, ◌&&◌, some, ltb, ◌+◌, ◌*◌, [], refl, ◌||◌, if◌then◌else◌, not, Option-cases,
  Bool,
}
use portfolio_server.Http.{Response}
use portfolio_server.Db.{Db, MessageRow}
use portfolio_server.Env.{Env, respond, check_rate_limit, insert_message}
use portfolio_server.Contact.Post.{
  process_new_message, insert_message_row, is_duplicate, new_message, MessageRateLimitSettings,
  insert_validated, query_rate, message_response, raised, to_string,
}
use portfolio_server.Contact.Form.{MessageForm, ValidatedMessage, validate}
use portfolio_server.Contact.RateLimit.{check_email_rate_limit, of_email}

pub insert_validated-ok :
    (env : Env) (v : ValidatedMessage) (tx tx' : Db) (r : Response)
    → insert_validated env v tx ≡ (ok r, tx')
    → (any (is_duplicate env (new_message env v)) tx.messages ≡ false)
      × (tx'.messages ≡ new_message env v ∷ tx.messages)
      × (r
          ≡ respond env 202
              (message_response env (text "Message received successfully") env.new_uuid))
unfolding insert_validated insert_message_row
insert_validated-ok env v tx tx' r e = ground arith

-- A message that is accepted is answered with 202; it was valid, the sender's limit let it through,
-- no stored message was the same within the hour, and it is stored, unread, as validated, while the
-- stored messages stay; the limiter has counted it.
pub process_new_message-ok :
    (env : Env) (config : MessageRateLimitSettings) (form : MessageForm) (tx tx' : Db)
    (r : Response)
    → process_new_message env config form tx ≡ (ok r, tx')
    → (v : ValidatedMessage) × (validate env form ≡ ok v)
      × ((check_email_rate_limit env.now v.email config.max_messages config.window_minutes
            tx.rate_limits).0
          ≡ true)
      × (any (is_duplicate env (new_message env v)) tx.messages ≡ false)
      × (tx'.messages ≡ new_message env v ∷ tx.messages)
      × (r.status ≡ 202)
      × (tx'.rate_limits
          ≡ (check_email_rate_limit env.now v.email config.max_messages config.window_minutes
              tx.rate_limits).1)
unfolding process_new_message query_rate insert_validated insert_message_row
process_new_message-ok env config form tx tx' r e = elim (Result-cases (validate env form)) [
  | inr (why, refused) ↦ ground arith
  | inl (v, valid) ↦ ground (arith, valid)
]

-- A message with a new identifier is a duplicate by its address and digest alone.
duplicate_new :
    (env : Env) (v : ValidatedMessage) (rows : List MessageRow)
    → any (λ old. old.message_id == env.new_uuid) rows ≡ false
    → any (is_duplicate env (new_message env v)) rows
      ≡ any
          (λ old.
            (text_eq old.email v.email
              && text_eq (env.md5 old.message_text) (env.md5 v.message_text))
            && ltb env.now (old.created_at + 3600))
          rows
duplicate_new env v [] new = refl
duplicate_new env v (row ∷ rows) new = ground (arith, new, duplicate_new env v rows)

-- A valid form is answered 429 where its address has sent as much as the limit allows within the
-- window; 409 where it has sent a text with the same digest within the last hour; and else 202. The
-- message is stored, unread and as validated, in the last case only, and the stored ones stay. The
-- configured numbers fit in 32 bits, the identifier is new, the statements reach the database, and an
-- error's text holds the message of the exception.
pub process_new_message-valid :
    (env : Env) (config : MessageRateLimitSettings) (form : MessageForm) (tx : Db)
    (v : ValidatedMessage)
    → validate env form ≡ ok v
    → config.max_messages < 2147483648
    → config.window_minutes < 2147483648
    → env.fault check_rate_limit ≡ none
    → env.fault insert_message ≡ none
    → contains (to_string (raised env)) (text "Duplicate message detected") ≡ true
    → any (λ old. old.message_id == env.new_uuid) tx.messages ≡ false
    → let passed : Bool = elim (find? (λ row. text_eq row.email v.email) tx.rate_limits) [
      | none ↦ true
      | some row ↦
          ltb (row.window_start + config.window_minutes * 60) env.now
          || ltb row.message_count config.max_messages
    ] in
      let repeated =
        any
          (λ old.
            (text_eq old.email v.email
              && text_eq (env.md5 old.message_text) (env.md5 v.message_text))
            && ltb env.now (old.created_at + 3600))
          tx.messages in
      let out = process_new_message env config form tx in
      (answer_status out.0 ≡ (if passed then if repeated then 409 else 202 else 429))
      × (out.1.messages ≡ (
          if passed && not repeated
          then record {
            message_id = env.new_uuid;
            email = v.email;
            sender_name = v.sender_name;
            message_text = v.message_text;
            created_at = env.now;
            read_message = some false;
          }
            ∷ tx.messages
          else tx.messages))
unfolding process_new_message query_rate insert_validated insert_message_row status
    check_email_rate_limit
process_new_message-valid env config form tx v valid m w up up' shown new =
    let same = duplicate_new env v tx.messages new in
    elim (Option-cases (find? (of_email v.email) tx.rate_limits)) [
      | inl none_yet ↦ ground (arith, valid, up, up', shown, new, same, none_yet)
      | inr (row, here) ↦ ground (arith, valid, up, up', shown, new, same, here)
    ]
