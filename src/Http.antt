-- ===== src/Http.antt =====
-- Requests and responses as the handlers see them: actix-web's `HttpRequest` and `HttpResponse`.
-- A body that a handler builds with `.json(…)` is the value handed to the serialiser.
use portfolio_server.Prelude.{
  ℕ, Text, Bytes, Bool, Option, none, some, List, [], ◌∷◌, text_eq, if◌then◌else◌,
}

-- An array is a chain of `cons`, an object a chain of `field`.
pub data Json : Type 0 where
  null : Json
  bool : Bool → Json
  num : ℕ → Json
  str : Text → Json
  nil : Json
  cons : Json → Json → Json
  field : Text → Json → Json → Json
  end : Json

abbrev pub Headers : Type 0
Headers = List (Text × Bytes)

pub data Body : Type 0 where
  empty : Body
  bytes : Bytes → Body
  json : Json → Body

pub record Response : Type 0 where
  pub status : ℕ
  pub headers : Headers
  pub body : Body

-- `HttpResponse::build(status).finish()`
abbrev pub finish : ℕ → Response
finish status = record { status = status; headers = []; body = empty }

-- A request after the connection was read: header names are in lower case, as the `http` crate
-- stores them, and cookies are parsed. `path` is the decoded path, which routes match, and `uri_path`
-- the path as it was sent, `request.path()`.
pub record Request : Type 0 where
  pub method : Text
  pub path : Text
  pub uri_path : Text
  pub headers : Headers
  pub cookies : List (Text × Text)

-- The first entry under a name.
unfoldable pub get {ℓ} : {V : Type ℓ} → Text → List (Text × V) → Option V
get name [] = none
get name ((n, v) ∷ rest) = let later = get name rest in if text_eq n name then some v else later
