-- ===== src/Contact/Form.antt =====
-- src/routes/contact/post.rs: the form, and its validation.
use portfolio_server.Prelude.{
  ◌≤◌, Text, ltb, ◌||◌, if◌then◌else◌, none, some, Result, ok, err, len, trim, and_then, ◌≡◌,
}
use portfolio_server.Errors.Message.{
  ContactSubmissionError, invalid_email, name_length, message_length,
}
use portfolio_server.Env.{Env}

pub record MessageForm : Type 0 where
  pub email : Text
  pub sender_name : Text
  pub message_text : Text

pub record ValidatedMessage : Type 0 where
  pub email : Text
  pub sender_name : Text
  pub message_text : Text

unfoldable pub validate_name : MessageForm → Result Text ContactSubmissionError
validate_name form =
    let trimmed = trim form.sender_name in
    if ltb (len trimmed) 2 || ltb 100 (len trimmed) then err name_length else ok trimmed

unfoldable pub validate_message : MessageForm → Result Text ContactSubmissionError
validate_message form =
    let trimmed = trim form.message_text in
    if ltb (len trimmed) 10 || ltb 5000 (len trimmed) then err message_length else ok trimmed

abbrev pub validate_email : Env → MessageForm → Result Text ContactSubmissionError
validate_email env form = elim (env.parse_email form.email) [
  | none ↦ err invalid_email
  | some email ↦ ok email
]

unfoldable pub validate : Env → MessageForm → Result ValidatedMessage ContactSubmissionError
unfolding validate_name validate_message
validate env form = and_then (validate_email env form) (λ email.
    and_then (validate_name form) (λ name.
      and_then (validate_message form)
        (λ message. ok (record { email = email; sender_name = name; message_text = message }))))

-- A form as it may be sent.
pub record FormFits (env : Env) (form : MessageForm) (v : ValidatedMessage) : Type 0 where
  pub address : env.parse_email form.email ≡ some v.email
  pub name : v.sender_name ≡ trim form.sender_name
  pub message : v.message_text ≡ trim form.message_text
  pub name_fits : (2 ≤ len v.sender_name) × (len v.sender_name ≤ 100)
  pub message_fits : (10 ≤ len v.message_text) × (len v.message_text ≤ 5000)
