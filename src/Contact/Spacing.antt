-- ===== src/Contact/Spacing.antt =====
-- What `process_new_message` of src/routes/contact/post.rs does to the table of messages.
use portfolio_server.Errors.Web.{WebError}
use portfolio_server.Contact.Post.{
  process_new_message, insert_message_row, is_same, is_duplicate, new_message,
  MessageRateLimitSettings, insert_validated, query_rate, if_rate_ok,
}
use portfolio_server.Contact.Form.{MessageForm, ValidatedMessage, validate}
use portfolio_server.Idempotency.Replay.{KeepsKeys}
use portfolio_server.Idempotency.Table.{AnswersInRange}
use portfolio_server.Env.{Env}
use portfolio_server.Db.{Db, MessageRow}
use portfolio_server.Prelude.{
  ◌+◌, ◌≤◌, ◌≡◌, List, [], ◌∷◌, All, any, true, false, arith, ok, err, ◌==◌, refl, Result,
  Result-cases, Text, inr, Bool, inl,
}

-- The same message is never stored twice within an hour.
abbrev pub IsSpaced : Env → List MessageRow → Type 0
IsSpaced env [] = Unit
IsSpaced env (new ∷ older) =
    All (λ old. is_same env new old ≡ true → old.created_at + 3600 ≤ new.created_at) older
    × IsSpaced env older

free-spaced :
    (env : Env) (row : MessageRow) (rows : List MessageRow)
    → row.created_at ≡ env.now
    → any (is_duplicate env row) rows ≡ false
    → any (λ old. old.message_id == row.message_id) rows ≡ false
    → All (λ old. is_same env row old ≡ true → old.created_at + 3600 ≤ row.created_at) rows
free-spaced env row [] at d i = tt
free-spaced env row (old ∷ rows) at d i = ground (arith, free-spaced env row rows at)

insert_message_row-IsSpaced :
    (env : Env) (row : MessageRow) (tx : Db)
    → row.created_at ≡ env.now
    → IsSpaced env tx.messages
    → IsSpaced env (insert_message_row env row tx).1.messages
unfolding insert_message_row
insert_message_row-IsSpaced env row tx at spaced =
    ground (arith, free-spaced env row tx.messages at)

insert_validated-IsSpaced :
    (env : Env) (v : ValidatedMessage) (tx : Db)
    → IsSpaced env tx.messages
    → IsSpaced env (insert_validated env v tx).1.messages
unfolding insert_validated
insert_validated-IsSpaced env v tx spaced =
    insert_message_row-IsSpaced env (new_message env v) tx refl spaced

query_rate-messages :
    (env : Env) (config : MessageRateLimitSettings) (email : Text) (tx : Db)
    → (query_rate env config email tx).1.messages ≡ tx.messages
unfolding query_rate
query_rate-messages env config email tx = ground arith

if_rate_ok-IsSpaced :
    (env : Env) (v : ValidatedMessage) (asked : Result Bool WebError × Db)
    → IsSpaced env asked.1.messages
    → IsSpaced env (if_rate_ok env v asked).1.messages
if_rate_ok-IsSpaced env v (ok true, tx) spaced = insert_validated-IsSpaced env v tx spaced
if_rate_ok-IsSpaced env v (ok false, tx) spaced = spaced
if_rate_ok-IsSpaced env v (err e, tx) spaced = spaced

-- Whatever the database does, a message is never stored within an hour of one with the same address
-- and the same digest of its text.
pub process_new_message-IsSpaced :
    (env : Env) (config : MessageRateLimitSettings) (form : MessageForm) (tx : Db)
    → IsSpaced env tx.messages
    → IsSpaced env (process_new_message env config form tx).1.messages
unfolding process_new_message query_rate insert_validated
process_new_message-IsSpaced env config form tx spaced = elim (Result-cases (validate env form)) [
  | inr (e, refused) ↦ rw (refused, process_new_message) spaced
  | inl (v, valid) ↦
      rw (valid, process_new_message)
        (if_rate_ok-IsSpaced env v (query_rate env config v.email tx)
          (rw (query_rate-messages env config v.email tx) spaced))
]

pub process_new_message-KeepsKeys :
    (env : Env) (config : MessageRateLimitSettings) (form : MessageForm)
    → KeepsKeys (process_new_message env config form)
unfolding process_new_message query_rate insert_validated insert_message_row
process_new_message-KeepsKeys env config form tx = ground arith

pub process_new_message-AnswersInRange :
    (env : Env) (config : MessageRateLimitSettings) (form : MessageForm)
    → AnswersInRange (process_new_message env config form)
unfolding process_new_message query_rate insert_validated insert_message_row
process_new_message-AnswersInRange env config form tx tx' r e = ground arith
