-- ===== src/Db.antt =====
-- The tables of migrations/, a record of type `Row` for each table, and the errors that their
-- constraints report. A table is the list of its rows.
use portfolio_server.Types.Article.{ArticleRecordRaw}
use portfolio_server.Prelude.{
  ℕ, Text, Bytes, Bool, Option, List, ℤ, pos, negsuc, some, none, take, drop,
}
use portfolio_server.Http.{Headers}

-- Table `idempotency`. The response columns are NULL until a response is stored.
pub record IdempotencyRow : Type 0 where
  pub user_id : Option ℕ
  pub idempotency_key : Text
  pub operation : Text
  pub response_status_code : Option ℤ
  pub response_headers : Option Headers
  pub response_body : Option Bytes
  pub created_at : ℕ

-- Table `messages`
pub record MessageRow : Type 0 where
  pub message_id : ℕ
  pub email : Text
  pub sender_name : Text
  pub message_text : Text
  pub created_at : ℕ
  pub read_message : Option Bool

-- Table `blog_posts` has rows of type `ArticleRecordRaw`.

-- Table `message_rate_limits`
pub record RateLimitRow : Type 0 where
  pub email : Text
  pub message_count : ℕ
  pub window_start : ℕ
  pub last_message_at : ℕ

-- Table `users`; the column `role` is read as a text.
pub record UserRow : Type 0 where
  pub user_id : ℕ
  pub username : Text
  pub password_hash : Text
  pub totp_secret : Option Bytes
  pub totp_enabled : Bool
  pub role : Option Text
  pub must_change_password : Bool

-- Table `user_invitations`
pub record InvitationRow : Type 0 where
  pub id : ℕ
  pub email : Text
  pub role : Text
  pub invitation_token_hash : Text
  pub expires_at : ℕ
  pub consumed_at : Option ℕ
  pub created_at : ℕ

pub record Db : Type 0 where
  pub idempotency : List IdempotencyRow
  pub messages : List MessageRow
  pub rate_limits : List RateLimitRow
  pub blog_posts : List ArticleRecordRaw
  pub users : List UserRow
  pub invitations : List InvitationRow

-- `LIMIT … OFFSET …`: Postgres refuses negative numbers.
abbrev pub window {ℓ} : {A : Type ℓ} → ℤ → ℤ → List A → Option (List A)
window (pos l) (pos o) rows = some (take l (drop o rows))
window (pos l) (negsuc o) rows = none
window (negsuc l) o rows = none
