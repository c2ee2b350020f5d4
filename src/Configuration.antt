-- ===== src/Configuration.antt =====
-- src/configuration.rs: the settings, what they are where nothing is given, and what is made of them.
-- The reader of files and variables, and sqlx's options of a connection, are not code of the
-- repository.
use portfolio_server.Errors.Start.{Failure, or_panics, expect, or_failed}
use portfolio_server.Errors.Sql.{Anyhow, msg}
use portfolio_server.Prelude.{
  ℕ, Option, Result, Text, List, ℤ, ◌++◌, some, Bool, if◌then◌else◌, ◌≡◌, Bytes, text, ok, text_eq,
  none, err, ◌↔◌, as_bytes, length, arith, ◌==◌, text_eq_iff, ◌∷◌, [], and_then, unwrap_or,
}
use portfolio_server.Contact.Post.{MessageRateLimitSettings}

pub data Environment : Type 0 where
  local production : Environment

abbrev pub as_str : Environment → Text
as_str local = text "local"
as_str production = text "production"

abbrev not_supported : Text → Text
not_supported other =
    other ++ text " is not a supported environment. Use either `local` or `production`."

-- `TryFrom<String>`, where `lower` is `to_lowercase`.
unfoldable pub environment_from : (Text → Text) → Text → Result Environment Text
environment_from lower s =
    if text_eq (lower s) (text "local")
    then ok local
    else if text_eq (lower s) (text "production")
    then ok production
    else err (not_supported (lower s))

-- The name of an environment is read as that environment, however it is written.
pub environment_from-as_str :
    (lower : Text → Text) (s : Text) (e : Environment)
    → (environment_from lower s ≡ ok e) ↔ (lower s ≡ as_str e)
unfolding environment_from
environment_from-as_str lower s local =
    ground (arith, text_eq_iff (lower s) (text "local"), text_eq_iff (lower s) (text "production"))
environment_from-as_str lower s production =
    ground (arith, text_eq_iff (lower s) (text "local"), text_eq_iff (lower s) (text "production"))

pub record ApplicationSettings : Type 0 where
  pub port : ℕ
  pub host : Text
  pub base_url : Text
  pub hmac_secret : Text
  pub totp_encryption_key : Text
  pub jwt_private_key : Text

pub record DatabaseSettings : Type 0 where
  pub username : Text
  pub password : Text
  pub port : ℕ
  pub host : Text
  pub database_name : Text
  pub require_ssl : Bool

pub record CorsSettings : Type 0 where
  pub allowed_origins : List Text
  pub max_age : ℕ

pub record TtlSettings : Type 0 where
  pub ttl_hours : ℤ
  pub idle_timeout_minutes : ℕ

pub record RateLimitSettings : Type 0 where
  pub message : MessageRateLimitSettings

abbrev pub default_message_rate_limit : MessageRateLimitSettings
default_message_rate_limit = record { max_messages = 3; window_minutes = 60 }

-- `RateLimitSettings::default`
abbrev pub default_rate_limit : RateLimitSettings
default_rate_limit = record { message = default_message_rate_limit }

pub record Settings : Type 0 where
  pub database : DatabaseSettings
  pub application : ApplicationSettings
  pub redis_uri : Text
  pub rate_limit : RateLimitSettings
  pub cors : CorsSettings
  pub ttl : TtlSettings

-- The `#[serde(default)]` of `rate_limit` and of its field: what is not given is the default.
abbrev pub rate_limit_of : Option (Option MessageRateLimitSettings) → RateLimitSettings
rate_limit_of none = default_rate_limit
rate_limit_of (some none) = record { message = default_message_rate_limit }
rate_limit_of (some (some given)) = record { message = given }

pub data PgSslMode : Type 0 where
  require prefer : PgSslMode

-- sqlx's builder of connection options.
pub record PgConnect : Type 1 where
  pub Options : Type 0
  pub new : Options
  pub host : Text → Options → Options
  pub username : Text → Options → Options
  pub password : Text → Options → Options
  pub port : ℕ → Options → Options
  pub ssl_mode : PgSslMode → Options → Options
  pub database : Text → Options → Options

abbrev pub ssl_mode_of : DatabaseSettings → PgSslMode
ssl_mode_of settings = if settings.require_ssl then require else prefer

abbrev pub connect_options : (lib : PgConnect) → DatabaseSettings → lib.Options
connect_options lib settings = lib.database settings.database_name (
    lib.ssl_mode (ssl_mode_of settings) (
      lib.port settings.port (
        lib.password settings.password
          (lib.username settings.username (lib.host settings.host lib.new)))))

-- src/startup.rs, `Application::build`: the key that the configuration gives must have 32 bytes.
unfoldable pub totp_key : ApplicationSettings → Result Bytes Anyhow
totp_key application =
    let raw = as_bytes application.totp_encryption_key in
    if length raw == 32
    then ok raw
    else err (msg (text "totp_encryption_key must be exactly 32 bytes"))

-- A source of the library config: a file, and the variables with a prefix.
pub data Source : Type 0 where
  file : Text → Source
  environment : Text → Text → Text → Source

-- The directory and the variable `APP_ENVIRONMENT` of the process, where they can be read, the paths
-- of the system, and the library's reading of sources, the later of which win, as settings.
pub record ConfigLib : Type 0 where
  pub current_dir : Option Text
  pub app_environment : Option Text
  pub to_lowercase : Text → Text
  pub join : Text → Text → Text
  pub read : List Source → Result Settings Anyhow

abbrev pub sources_of : ConfigLib → Text → Environment → List Source
sources_of lib base chosen =
    let directory = lib.join base (text "configuration") in
    file (lib.join directory (text "base.yaml"))
    ∷ file (lib.join directory (as_str chosen ++ text ".yaml"))
    ∷ environment (text "APP") (text "_") (text "__")
    ∷ []

unfoldable pub get_configuration : ConfigLib → Result Settings Failure
unfolding environment_from
get_configuration lib =
    and_then (or_panics (text "Failed to determine the current directory") lib.current_dir) (λ base.
      and_then
        (expect (text "Failed to parse APP_ENVIRONMENT")
          (environment_from lib.to_lowercase (unwrap_or lib.app_environment (text "local"))))
        (λ chosen. or_failed (λ e. e) (lib.read (sources_of lib base chosen))))
