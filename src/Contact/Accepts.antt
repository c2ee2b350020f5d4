-- ===== src/Contact/Accepts.antt =====
-- Which forms the validation of src/routes/contact/post.rs lets through.
use portfolio_server.Prelude.{ok, ◌↔◌, ◌≡◌, arith}
use portfolio_server.Env.{Env}
use portfolio_server.Contact.Form.{
  MessageForm, ValidatedMessage, validate, validate_name, validate_message, FormFits,
}

-- A form passes exactly when its address parses and the name and the message, trimmed, have 2 to
-- 100 and 10 to 5000 bytes; what passes is the parsed address and the trimmed texts.
pub validate_iff :
    (env : Env) (form : MessageForm) (v : ValidatedMessage)
    → (validate env form ≡ ok v) ↔ FormFits env form v
unfolding validate validate_name validate_message
validate_iff env form v = ground arith
