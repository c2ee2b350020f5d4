-- ===== src/Tests/Startup.antt =====
-- The routes at a few requests.
use portfolio_server.Startup.Build.{BuildLib, build, Application, ServerData}
use portfolio_server.Configuration.{Settings, PgConnect}
use portfolio_server.Types.User.{parse, admin}
use portfolio_server.Session.Typed.{get_user_id, get_user_role}
use portfolio_server.Errors.Sql.{Anyhow}
use portfolio_server.Auth.Middleware.{
  cross_site_request_forgery_protection, admin_scope, reject_non_admin, reject_anonymous_users,
}
use portfolio_server.Http.{Request, finish, Response, Json, get}
use portfolio_server.Prelude.{
  text, Bool, ok, arith, Text, List, ◌≡◌, true, ◌∷◌, inl, text_eq, Result, [], if◌then◌else◌, refl,
  some, Bytes, pos, as_bytes,
}
use portfolio_server.Tests.Samples.{quiet}
use portfolio_server.Tests.Sessions.{in_list}
use portfolio_server.Startup.{Handlers, run_routes, scope_of, parts}
use portfolio_server.Startup.Guarded.{Agree, needs_admin, run-guarded}

abbrev States : Type 0
States = Bool × List (Text × Json)

-- Handlers that answer 200, and the same with an administration that answers 202.
abbrev all_200 : Handlers States
all_200 e u given w = (ok (finish 200), w)

abbrev admin_202 : Handlers States
admin_202 e u given w = (ok (finish (if needs_admin e then 202 else 200)), w)

admin_differs : Agree needs_admin all_200 admin_202
admin_differs e plain u given w = ground (arith, plain)

abbrev keeps : Text → Response → Result Response Anyhow
keeps token r = ok r

abbrev asks_for : Text → Text → Request
asks_for method path = record {
  method = method;
  path = path;
  uri_path = path;
  headers = (text "x-xsrf-token", text "t") ∷ [];
  cookies = (text "XSRF-TOKEN", text "t") ∷ [];
}

abbrev of_role : Text → States
of_role role = (true, (text "user_role", Json.str role) ∷ (text "user_id", Json.num 1) ∷ [])

abbrev edits_bob : Request
edits_bob = asks_for (text "PATCH") (text "/v1/admin/users/bob/role")

-- An admin reaches the handler of the route, and a path that no route has is not found.
reached :
    (run_routes in_list keeps (λ s. s) quiet edits_bob admin_202 (of_role (text "admin"))).0
    ≡ ok (finish 202)
unfolding run_routes scope_of parts text_eq cross_site_request_forgery_protection get admin_scope
    reject_non_admin reject_anonymous_users get_user_id get_user_role parse
reached = refl

not_an_admin : ¬ (get_user_role in_list (of_role (text "user")) ≡ ok (some admin))
unfolding get_user_role get text_eq parse
not_an_admin e = ground arith

run-guarded_example :
    run_routes in_list keeps (λ s. s) quiet edits_bob all_200 (of_role (text "user"))
    ≡ run_routes in_list keeps (λ s. s) quiet edits_bob admin_202 (of_role (text "user"))
run-guarded_example =
    run-guarded in_list keeps (λ s. s) quiet edits_bob (of_role (text "user")) all_200 admin_202
      (inl (not_an_admin, admin_differs))

-- A start on a machine where everything succeeds; a server is what it serves.
abbrev pg : PgConnect
pg = record {
  Options = Text;
  new = [];
  host = λ h o. h;
  username = λ u o. o;
  password = λ p o. o;
  port = λ n o. o;
  ssl_mode = λ m o. o;
  database = λ d o. o;
}

abbrev machine : BuildLib
machine = record {
  Pool = Text;
  Listener = Text;
  Key = Bytes;
  Store = Text;
  Server = ServerData;
  pg = pg;
  connect_lazy_with = λ o. o;
  acquire = λ pool. ok tt;
  port_text = λ n. text "8000";
  display = λ e. text "error";
  bind = λ a. ok a;
  local_port = λ l. some 8000;
  key_from = λ b. some b;
  redis_store = λ uri. ok uri;
  listen = λ pool store key options outer inner served listener. ok served;
}

abbrev settings : Settings
settings = record {
  database = record {
    username = text "u";
    password = text "p";
    port = 5432;
    host = text "db";
    database_name = text "d";
    require_ssl = true;
  };
  application = record {
    port = 8000;
    host = text "0.0.0.0";
    base_url = text "http://x";
    hmac_secret = text "h";
    totp_encryption_key = text "01234567890123456789012345678901";
    jwt_private_key = text "j";
  };
  redis_uri = text "redis://r";
  rate_limit = record { message = record { max_messages = 3; window_minutes = 60 } };
  cors = record { allowed_origins = []; max_age = 3600 };
  ttl = record { ttl_hours = pos 1; idle_timeout_minutes = 30 };
}

abbrev started : Application machine
started = record {
  port = 8000;
  server = record {
    base_url = text "http://x";
    hmac = text "h";
    message = record { max_messages = 3; window_minutes = 60 };
    totp = text "01234567890123456789012345678901";
    jwt = text "j";
  };
}

build_test : build machine settings ≡ ok started
unfolding build as_bytes
build_test = refl
