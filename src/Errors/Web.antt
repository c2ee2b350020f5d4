-- ===== src/Errors/Web.antt =====
-- `actix_web::Error`: what a handler fails with, and the status that the client sees. The helpers
-- of src/utils.rs that build such errors and plain responses.
use portfolio_server.Prelude.{ℕ, Text, text, [], ◌∷◌, List, ◌++◌, Result, ok, err}
use portfolio_server.Errors.Sql.{Anyhow}
use portfolio_server.Errors.Auth
use portfolio_server.Errors.Auth.{AuthError}
use portfolio_server.Errors.Blog
use portfolio_server.Errors.Blog.{BlogError}
use portfolio_server.Errors.Idempotency
use portfolio_server.Errors.Idempotency.{IdempotencyError}
use portfolio_server.Errors.Message.{
  ContactSubmissionError, contact_status_code, MessageGetError, get_status_code, MessagePatchError,
  patch_status_code,
}
use portfolio_server.Http.{Response, finish, Body}

-- `panicked t` is a panic: the task ends there and its transaction is dropped, as by an error, but
-- no status is sent, for which 0 stands.
-- `error_with status e` is `ErrorBadRequest(e)` and its like; `from_response e r` is
-- `InternalError::from_response(e, r)`.
pub data WebError : Type 0 where
  auth : AuthError → WebError
  blog : BlogError → WebError
  idempotency : IdempotencyError → WebError
  contact : ContactSubmissionError → WebError
  message_get : MessageGetError → WebError
  message_patch : MessagePatchError → WebError
  error_with : ℕ → Anyhow → WebError
  from_response : Anyhow → Response → WebError
  panicked : Text → WebError

unfoldable pub status : WebError → ℕ
unfolding Auth.status_code Blog.status_code Idempotency.status_code contact_status_code
    get_status_code patch_status_code
status (auth e) = Auth.status_code e
status (blog e) = Blog.status_code e
status (idempotency e) = Idempotency.status_code e
status (contact e) = contact_status_code e
status (message_get e) = get_status_code e
status (message_patch e) = patch_status_code e
status (error_with s e) = s
status (from_response e r) = r.status
status (panicked t) = 0

-- The status that the client sees.
abbrev pub answer_status : Result Response WebError → ℕ
answer_status (ok r) = r.status
answer_status (err e) = status e

abbrev pub e400 : Anyhow → WebError
e400 e = error_with 400 e

abbrev pub e500 : Anyhow → WebError
e500 e = error_with 500 e

abbrev pub see_other : Text → Response
see_other location = record {
  status = 303;
  headers = (text "location", location) ∷ [];
  body = Body.empty;
}

abbrev pub unauthorized : Response
unauthorized = finish 401

-- `error_chain_fmt`, of the text of an error and the texts of its sources, the nearest first.
abbrev pub caused_by : List Text → Text
caused_by [] = []
caused_by (cause ∷ rest) = text "Caused by:" ++ (10 ∷ 9 ∷ cause) ++ (10 ∷ caused_by rest)

abbrev pub error_chain_fmt : Text → List Text → Text
error_chain_fmt e sources = e ++ (10 ∷ 10 ∷ caused_by sources)
