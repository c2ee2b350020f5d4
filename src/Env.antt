-- ===== src/Env.antt =====
-- What a request meets that is not code of this repository: the clock, fresh identifiers, the
-- failures of the database connection, and the libraries, as functions of their inputs.
use portfolio_server.Db.{UserRow}
use portfolio_server.Errors.Web.{WebError}
use portfolio_server.Types.Article.{ArticleSection}
use portfolio_server.Prelude.{ℕ, Text, Bytes, Bool, Option, Result, List, some, text, none, err}
use portfolio_server.Errors.Sql.{SqlError, database}
use portfolio_server.Http.{Body, Headers, Json, Response}

-- The statements that the handlers send. Within one request each is sent at most once.
pub data Query : Type 0 where
  begin claim_key select_saved store_response commit : Query
  check_rate_limit insert_message : Query
  insert_post update_post publish_post delete_post count_posts select_posts : Query
  update_message count_messages select_messages : Query
  select_credentials select_totp select_username update_password : Query
  select_totp_status store_totp enable_totp disable_totp : Query
  insert_invitation select_invitation insert_user consume_invitation : Query
  select_users update_role require_change : Query

pub record Env : Type 0 where
  -- seconds since the epoch, as `NOW()` in a statement reads it
  pub now : ℕ
  -- `NOW()` in the ticks of a TIMESTAMPTZ, which a unique column compares
  pub now_exact : ℕ
  -- `Uuid::new_v4()`
  pub new_uuid : ℕ
  -- a statement that fails for a reason outside of the tables: a lost connection, a timeout
  pub fault : Query → Option SqlError
  -- `HeaderValue::to_str`
  pub to_str : Bytes → Option Text
  -- the headers that actix's response builder adds for a body
  pub builder_headers : Body → Headers
  -- `to_string()` of an error that Postgres reports, from its message
  pub display_db : Text → Text
  -- the text of a UUID and of a time
  pub uuid_text : ℕ → Text
  pub time_text : ℕ → Text
  -- the serialiser and the deserialiser that serde derives for the sections of an article
  pub sections_to_json : List ArticleSection → Json
  pub sections_from_json : Json → Result (List ArticleSection) Text
  -- the placeholder that sqlx's query builder writes for the n-th bound value
  pub placeholder : ℕ → Text
  -- `EmailAddress::from_str(s).map(|r| r.email())`, `EmailAddress::is_valid`, and Postgres' `md5`
  pub parse_email : Text → Option Text
  pub is_valid_email : Text → Bool
  pub md5 : Text → Text
  -- whether a text is a hash in PHC format, and whether such a hash is the password's (argon2)
  pub is_phc : Text → Bool
  pub verify_password : Text → Text → Bool
  -- the hash of a password with a fresh salt, in PHC format
  pub hash_password : Text → Result Text Text
  -- 32 random letters and digits, and `hex::encode` of the SHA-256 digest of a text
  pub new_token : Text
  pub sha256_hex : Text → Text
  -- what `error_response` of an error has beside its status
  pub render : WebError → Headers × Body
  -- the order in which a SELECT without ORDER BY gives the users
  pub scan_users : List UserRow → List UserRow
  -- `to_bytes(body)`, the serialised body
  pub to_bytes : Body → Result Bytes Text

-- `HttpResponse::build(status).json(j)`
abbrev pub respond : Env → ℕ → Json → Response
respond env status j = record {
  status = status;
  headers = env.builder_headers (Body.json j);
  body = Body.json j;
}

-- A statement fails on its way to the database, or goes on as `r`.
abbrev pub with_fault {ℓ κ} :
    {A : Type ℓ} {E : Type κ} → Env → Query → (SqlError → E) → Result A E → Result A E
with_fault env q f r = elim (env.fault q) [ none ↦ r | some e ↦ err (f e) ]

-- The errors that constraints report, by their SQLSTATE.
abbrev pub unique_violation : Env → SqlError
unique_violation env =
    database (some (text "23505"))
      (env.display_db (text "duplicate key value violates unique constraint"))
