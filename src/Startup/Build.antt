-- ===== src/Startup/Build.antt =====
-- src/startup.rs, `Application::build` and `run`: from the settings to a server that listens. The
-- pool, the listener, the store of the sessions and the server are of libraries; what the builders
-- of the middlewares are given is a record of their arguments.
use portfolio_server.Errors.Start.{Failure, or_panics, or_failed}
use portfolio_server.Startup.{get_method, post_method, patch_method, delete_method}
use portfolio_server.Contact.Post.{MessageRateLimitSettings}
use portfolio_server.Errors.Sql.{Anyhow, msg}
use portfolio_server.Configuration.{
  RateLimitSettings, PgConnect, DatabaseSettings, CorsSettings, ApplicationSettings, TtlSettings,
  totp_key, connect_options, Settings,
}
use portfolio_server.Prelude.{
  ℕ, some, ok, Text, Bool, List, Bytes, Result, ℤ, ◌++◌, text, Option, true, ◌∷◌, and_then,
  as_bytes, [], ◌≡◌, length,
}

pub record UtilConfig : Type 0 where
  pub rate : RateLimitSettings
  pub cors : CorsSettings
  pub ttl : TtlSettings

pub record SecretsConfig : Type 0 where
  pub hmac : Text
  pub totp : Bytes
  pub jwt : Text

pub record CorsOptions : Type 0 where
  pub allowed_origins : List Text
  pub allowed_methods : List Text
  pub allowed_headers : List Text
  pub supports_credentials : Bool
  pub max_age : ℕ

abbrev allowed_headers : List Text
allowed_headers =
    text "authorization"
    ∷ text "accept"
    ∷ text "content-type"
    ∷ text "idempotency-key"
    ∷ text "x-xsrf-token"
    ∷ []

abbrev pub cors_of : List Text → CorsSettings → CorsOptions
cors_of methods settings = record {
  allowed_origins = settings.allowed_origins;
  allowed_methods = methods;
  allowed_headers = allowed_headers;
  supports_credentials = true;
  max_age = settings.max_age;
}

-- The middleware of `/v1`, and the one of `/admin` behind it.
abbrev pub v1_cors : CorsSettings → CorsOptions
v1_cors = cors_of (get_method ∷ post_method ∷ [])

abbrev pub admin_cors : CorsSettings → CorsOptions
admin_cors = cors_of (get_method ∷ post_method ∷ patch_method ∷ delete_method ∷ [])

pub data SameSite : Type 0 where
  strict lax : SameSite

pub data TtlExtensionPolicy : Type 0 where
  on_every_request on_state_changes : TtlExtensionPolicy

pub record SessionOptions : Type 0 where
  pub cookie_same_site : SameSite
  pub cookie_http_only : Bool
  pub cookie_secure : Bool
  pub session_ttl_hours : ℤ
  pub session_ttl_extension_policy : TtlExtensionPolicy

abbrev pub session_options : TtlSettings → SessionOptions
session_options ttl = record {
  cookie_same_site = strict;
  cookie_http_only = true;
  cookie_secure = true;
  session_ttl_hours = ttl.ttl_hours;
  session_ttl_extension_policy = on_every_request;
}

-- `.app_data(…)` of values that are not libraries' objects.
pub record ServerData : Type 0 where
  pub base_url : Text
  pub hmac : Text
  pub message : MessageRateLimitSettings
  pub totp : Bytes
  pub jwt : Text

-- `local_port` is `local_addr().unwrap().port()`, `key_from` is `Key::from`; both may panic, and then
-- give `none`. `port_text` and `display` are the text of a number and of an error.
pub record BuildLib : Type 1 where
  pub Pool : Type 0
  pub Listener : Type 0
  pub Key : Type 0
  pub Store : Type 0
  pub Server : Type 0
  pub pg : PgConnect
  pub connect_lazy_with : pg.Options → Pool
  pub acquire : Pool → Result (Unit {0}) Anyhow
  pub port_text : ℕ → Text
  pub display : Anyhow → Text
  pub bind : Text → Result Listener Anyhow
  pub local_port : Listener → Option ℕ
  pub key_from : Bytes → Option Key
  pub redis_store : Text → Result Store Anyhow
  pub listen :
      Pool
      → Store
      → Key
      → SessionOptions
      → CorsOptions
      → CorsOptions
      → ServerData
      → Listener
      → Result Server Anyhow

module _ (lib : BuildLib) where
  -- `anyhow!("…: {e}")`
  abbrev shown : Text → Anyhow → Anyhow
  shown what e = msg (what ++ lib.display e)

  unfoldable pub get_connection_pool : DatabaseSettings → lib.Pool
  get_connection_pool settings = lib.connect_lazy_with (connect_options lib.pg settings)

  pub record Application : Type 0 where
    pub port : ℕ
    pub server : lib.Server

  abbrev pub server_data : Text → SecretsConfig → UtilConfig → ServerData
  server_data base_url secrets util = record {
    base_url = base_url;
    hmac = secrets.hmac;
    message = util.rate.message;
    totp = secrets.totp;
    jwt = secrets.jwt;
  }

  unfoldable pub run :
      lib.Listener → lib.Pool → Text → SecretsConfig → Text → UtilConfig → Result lib.Server Failure
  run listener pool base_url secrets redis_uri util =
      and_then (or_panics (text "Key::from") (lib.key_from (as_bytes secrets.hmac))) (λ key.
        and_then
          (or_failed (shown (text "Redis session store connection failed: "))
            (lib.redis_store redis_uri))
          (λ store.
            or_failed (λ e. e)
              (lib.listen pool store key (session_options util.ttl) (v1_cors util.cors)
                (admin_cors util.cors) (server_data base_url secrets util) listener)))

  abbrev pub address : ApplicationSettings → Text
  address application = application.host ++ (text ":" ++ lib.port_text application.port)

  unfoldable pub build : Settings → Result Application Failure
  unfolding get_connection_pool totp_key run
  build settings =
      let pool = get_connection_pool settings.database in
      let application = settings.application in
      and_then (or_failed (shown (text "Database connectivity check failed: ")) (lib.acquire pool))
        (λ reached. and_then (or_failed (λ e. e) (totp_key application)) (λ key.
          and_then (or_failed (λ e. e) (lib.bind (address application))) (λ listener.
            and_then (or_panics (text "local_addr") (lib.local_port listener)) (λ port.
              and_then
                (run listener pool application.base_url
                  (record {
                    hmac = application.hmac_secret;
                    totp = key;
                    jwt = application.jwt_private_key;
                  })
                  settings.redis_uri
                  (record { rate = settings.rate_limit; cors = settings.cors; ttl = settings.ttl }))
                (λ server. ok (record { port = port; server = server }))))))

  -- The server for the settings, with the key of the second factor.
  abbrev pub served :
      Settings → lib.Listener → lib.Key → lib.Store → Bytes → Result lib.Server Anyhow
  served settings listener key store totp =
      lib.listen (get_connection_pool settings.database) store key (session_options settings.ttl)
        (v1_cors settings.cors) (admin_cors settings.cors)
        (record {
          base_url = settings.application.base_url;
          hmac = settings.application.hmac_secret;
          message = settings.rate_limit.message;
          totp = totp;
          jwt = settings.application.jwt_private_key;
        })
        listener

  -- What a start has met that succeeded, in its order.
  pub record Built (settings : Settings) (app : Application) : Type 0 where
    pub reached : lib.acquire (get_connection_pool settings.database) ≡ ok tt
    pub key_bytes : length (as_bytes settings.application.totp_encryption_key) ≡ 32
    pub listener : lib.Listener
    pub bound : lib.bind (address settings.application) ≡ ok listener
    pub port : lib.local_port listener ≡ some app.port
    pub key : lib.Key
    pub keyed : lib.key_from (as_bytes settings.application.hmac_secret) ≡ some key
    pub store : lib.Store
    pub connected : lib.redis_store settings.redis_uri ≡ ok store
    pub listens :
        served settings listener key store (as_bytes settings.application.totp_encryption_key)
        ≡ ok app.server
