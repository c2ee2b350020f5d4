-- ===== src/Errors/Message.antt =====
-- src/errors/message.rs
use portfolio_server.Prelude.{ℕ, Text, text, Option, none, some}
use portfolio_server.Errors.Sql.{Anyhow}
use portfolio_server.Http.{Json}

pub record ErrorMessage : Type 0 where
  pub message : Option Text

pub data ContactSubmissionError : Type 0 where
  invalid_email message_length name_length : ContactSubmissionError
  rate_limit_exceeded duplicate_message : ContactSubmissionError
  unexpected_error : Anyhow → ContactSubmissionError

abbrev said : Text → Option ErrorMessage
said t = some (record { message = some t })

unfoldable pub to_message_error : ContactSubmissionError → Option ErrorMessage
to_message_error invalid_email = said (text "Invalid email")
to_message_error message_length = said (text "Message must be between 10 and 5000 characters")
to_message_error name_length = said (text "Name must be between 2 and 100 characters.")
to_message_error rate_limit_exceeded = none
to_message_error duplicate_message = none
to_message_error (unexpected_error e) = none

unfoldable pub contact_status_code : ContactSubmissionError → ℕ
contact_status_code invalid_email = 400
contact_status_code message_length = 400
contact_status_code name_length = 400
contact_status_code rate_limit_exceeded = 429
contact_status_code duplicate_message = 409
contact_status_code (unexpected_error e) = 500

-- The serialised form of the optional `ErrorMessage`; its field is left out when it is none.
abbrev pub error_json : Option ErrorMessage → Json
error_json none = Json.null
error_json (some m) = elim m.message [
  | none ↦ Json.end
  | some t ↦ Json.field (text "message") (Json.str t) Json.end
]

pub data MessageGetError : Type 0 where
  total_count : MessageGetError

unfoldable pub get_status_code : MessageGetError → ℕ
get_status_code total_count = 500

pub data MessagePatchError : Type 0 where
  message_not_found : MessagePatchError
  unexpected_error : Anyhow → MessagePatchError

unfoldable pub patch_status_code : MessagePatchError → ℕ
patch_status_code message_not_found = 404
patch_status_code (unexpected_error e) = 500
