-- ===== src/Users/ChatToken.antt =====
-- src/routes/chat_token/get.rs. The library jsonwebtoken and chrono's addition are parameters.
use portfolio_server.Prelude.{ℕ, Text, text, Option, none, some, Result, ok, err}
use portfolio_server.Http.{Json, Response}
use portfolio_server.Errors.Sql.{Anyhow, context, msg, sqlx}
use portfolio_server.Errors.Web.{WebError, e500}
use portfolio_server.Env.{Env, respond, select_username}
use portfolio_server.Db.{Db}
use portfolio_server.Users.Rows.{fetch_user}

pub record ChatClaims : Type 0 where
  pub name : Text
  pub sub : Text
  pub exp : ℕ
  pub iss : Text
  pub aud : Text

-- `checked_add_signed` of seconds, `EncodingKey::from_ec_pem`, and `encode` with ES256.
pub record JwtLib : Type 1 where
  pub Key : Type 0
  pub add_seconds : ℕ → ℕ → Option ℕ
  pub from_ec_pem : Text → Result Key Anyhow
  pub encode : ChatClaims → Key → Result Text Anyhow

abbrev pub claims_of : Env → Text → ℕ → ℕ → ChatClaims
claims_of env username user_id exp = record {
  name = username;
  sub = env.uuid_text user_id;
  exp = exp;
  iss = text "portfolio-server";
  aud = text "portfolio-chat";
}

abbrev pub token_response : Env → Text → Response
token_response env token = respond env 200 (Json.field (text "token") (Json.str token) Json.end)

unfoldable pub chat_token : Env → JwtLib → Text → ℕ → Db → Result Response WebError
unfolding fetch_user
chat_token env jwt pem user_id pool = elim (jwt.add_seconds env.now 60) [
  | none ↦ err (e500 (msg (text "time overflow")))
  | some exp ↦ elim (fetch_user env select_username user_id pool) [
    | err e ↦ err (e500 (context (text "Failed to fetch username") (sqlx e)))
    | ok row ↦ elim (jwt.from_ec_pem pem) [
      | err e ↦ err (e500 e)
      | ok key ↦ elim (jwt.encode (claims_of env row.username user_id exp) key) [
        | err e ↦ err (e500 e)
        | ok token ↦ ok (token_response env token)
      ]
    ]
  ]
]
