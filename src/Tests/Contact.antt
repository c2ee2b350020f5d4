-- ===== src/Tests/Contact.antt =====
-- Tests of the contact form.
use portfolio_server.Idempotency.Outcome.{Replayed}
use portfolio_server.Idempotency.Store.{try_processing, save_response}
use portfolio_server.Idempotency.Key.{try_from, IdempotencyKey}
use portfolio_server.Idempotency.Execute.{execute_idempotent, get_idempotency_key, operation_of}
use portfolio_server.Messages.Delivered.{post_message-get_messages}
use portfolio_server.Messages.List.{MessagesResponse, get_messages}
use portfolio_server.Types.Pagination.{PaginationQuery, page}
use portfolio_server.Http.{Response, Body, Request, get}
use portfolio_server.Errors.Web.{answer_status}
use portfolio_server.Env.{Env, respond}
use portfolio_server.Prelude.{
  trim, ◌≡◌, text, ◌∷◌, ok, [], len, refl, contains, ◌↔◌, ◌≤◌, starts_with, arith, pos, text_eq,
  ◌⊎◌, List, none, count, Text, ℕ,
}
use portfolio_server.Contact.Form.{MessageForm, ValidatedMessage, validate, FormFits}
use portfolio_server.Contact.Post.{
  MessageRateLimitSettings, process_new_message, new_message, message_response, post_message,
}
use portfolio_server.Contact.Accepts.{validate_iff}
use portfolio_server.Contact.Limits.{Sent, post_all, post_all-max_messages}
use portfolio_server.Contact.Outcome.{process_new_message-valid}
use portfolio_server.Contact.Spacing.{IsSpaced, process_new_message-IsSpaced}
use portfolio_server.Tests.Samples.{quiet, two_posts, asks}
use portfolio_server.Db.{Db, MessageRow}

abbrev greeting : MessageForm
greeting = record {
  email = text "a@b.c";
  sender_name = text " John ";
  message_text = text "Hello, hello. ";
}

abbrev greeted : ValidatedMessage
greeted = record {
  email = text "a@b.c";
  sender_name = text "John";
  message_text = text "Hello, hello.";
}

abbrev defaults : MessageRateLimitSettings
defaults = record { max_messages = 3; window_minutes = 60 }

greeting_passes : validate quiet greeting ≡ ok greeted
unfolding validate trim len
greeting_passes = refl

validate_iff_example : (validate quiet greeting ≡ ok greeted) ↔ FormFits quiet greeting greeted
validate_iff_example = validate_iff quiet greeting greeted

-- The table after the greeting.
abbrev one_message : Db
one_message = record two_posts { messages = new_message quiet greeted ∷ [] }

abbrev later_id : Env
later_id = record quiet { new_uuid = 10 }

process_new_message-IsSpaced_example :
    IsSpaced later_id (process_new_message later_id defaults greeting one_message).1.messages
process_new_message-IsSpaced_example =
    process_new_message-IsSpaced later_id defaults greeting one_message (tt, tt)

abbrev accepted : Response
accepted = respond quiet 202 (message_response quiet (text "Message received successfully") 9)

process_new_message-valid_example :
    (answer_status (process_new_message later_id defaults greeting one_message).0 ≡ 409)
    × ((process_new_message later_id defaults greeting one_message).1.messages
        ≡ one_message.messages)
unfolding validate trim len contains starts_with text_eq
process_new_message-valid_example =
    process_new_message-valid later_id defaults greeting one_message greeted refl (omega arith)
      (omega arith) refl refl refl refl

abbrev sends_greeting : Request
sends_greeting = asks (text "POST") (text "/v1/contact") (text "k")

abbrev first_of_inbox : PaginationQuery
first_of_inbox = record { page_field = pos 1; page_size_field = pos 20 }

abbrev told : Response
told = record accepted { body = Body.bytes (text "{}") }

post_message-get_messages_example :
    ((key : IdempotencyKey) × (get_idempotency_key quiet sends_greeting ≡ ok key)
      × Replayed quiet two_posts
          (post_message quiet sends_greeting two_posts defaults greeting).1
          key
          none
          (operation_of sends_greeting)
          told)
    ⊎ ((v : ValidatedMessage) × (page : MessagesResponse) × (rest : List MessageRow) × (validate
            quiet greeting
          ≡ ok v)
        × (get_messages quiet first_of_inbox
              (post_message quiet sends_greeting two_posts defaults greeting).1
            ≡ ok page)
        × (page.messages ≡ new_message quiet v ∷ rest)
        × (page.total_items ≡ pos 1))
unfolding post_message text_eq get validate trim len page execute_idempotent get_idempotency_key
    try_from try_processing process_new_message save_response
post_message-get_messages_example =
    post_message-get_messages quiet quiet sends_greeting two_posts
      (post_message quiet sends_greeting two_posts defaults greeting).1 defaults greeting told
      first_of_inbox refl tt refl refl refl

-- The same greeting under two keys: one is stored.
abbrev greets : Text → ℕ → Sent
greets key id = record {
  env = record quiet { new_uuid = id };
  request = asks (text "POST") (text "/v1/contact") key;
  form = greeting;
}

abbrev two_greetings : List Sent
two_greetings = greets (text "k") 9 ∷ greets (text "l") 10 ∷ []

post_all-max_messages_example :
    count
      (λ row. text_eq row.email (text "a@b.c"))
      (post_all defaults two_greetings two_posts).messages
    ≤ 3
post_all-max_messages_example =
    post_all-max_messages defaults (text "a@b.c") 5000 two_greetings two_posts
      ((omega arith, omega arith), ((omega arith, omega arith), tt)) refl
