-- ===== src/Tests/Server.antt =====
-- A server with an admin, and the requests of a client of it.
use portfolio_server.Server.Sound.{Served-IsSound, opens, Served}
use portfolio_server.Users.Totp.{set_secret}
use portfolio_server.System.{IsFirst}
use portfolio_server.Users.Rows.{update_user}
use portfolio_server.System.Sound.{IsSound}
use portfolio_server.Server.Forged.{HasLittle, forged-HasLittle}
use portfolio_server.Users.Admin.{set_user_role}
use portfolio_server.Tests.Sessions.{in_list, in_list-IsLawful, in_list-IsReliable}
use portfolio_server.Tests.Samples.{two_posts, quiet, form}
use portfolio_server.Auth.Password.{validate_credentials}
use portfolio_server.Startup.{parts, scope_of, endpoint_for}
use portfolio_server.Errors.Web.{WebError, e400}
use portfolio_server.Errors.Sql.{Anyhow, msg}
use portfolio_server.Users.ChatToken.{JwtLib}
use portfolio_server.Db.{Db, UserRow}
use portfolio_server.Server.Visits.{Proved, ProvedAdmin, visit-Permitted}
use portfolio_server.Server.Client.{visit, Visit, returns, arrives, signs_out, Visited}
use portfolio_server.Http.{get, Response, Request, Json}
use portfolio_server.Crypto.{Cipher}
use portfolio_server.Auth.VerifyTotp.{TotpLib}
use portfolio_server.Server.{Inputs, AppData, World, respond_to}
use portfolio_server.Server.Permitted.{Permitted}
use portfolio_server.Prelude.{
  ℕ, some, none, ok, err, Result, Bool, Text, List, [], text, ◌+◌, text_eq, ◌∷◌, false, true, ◌≡◌,
  refl, arith, inl, as_bytes, ap, sym,
}
use portfolio_server.Types.User.{admin, parse}

abbrev plain : Cipher
plain = record {
  seal = λ key nonce text_of. some text_of;
  unseal = λ key nonce sealed. some sealed;
}

abbrev totp_lib : TotpLib
totp_lib = record {
  from_utf8 = λ b. ok b;
  new_totp = λ secret user. ok secret;
  check_current = λ totp code. ok (text_eq totp code);
  to_encoded = λ secret. secret;
  new_raw_totp = λ secret user. ok secret;
  get_url = λ totp. totp;
}

abbrev jwt : JwtLib
jwt = record {
  Key = Unit;
  add_seconds = λ t n. some (t + n);
  from_ec_pem = λ pem. ok tt;
  encode = λ claims key. ok claims.name;
}

abbrev app : AppData
app = record {
  page = [];
  shared = record {
    base_url = text "http://x";
    hmac = [];
    message = record { max_messages = 3; window_minutes = 60 };
    totp = [];
    jwt = [];
  };
  totp = totp_lib;
  cipher = plain;
  articles_to_json = λ page. Json.nil;
  messages_to_json = λ page. Json.nil;
  users_to_json = λ users. Json.nil;
}

abbrev bad {ℓ} : {A : Type ℓ} → Result A WebError
bad = err (e400 (msg (text "bad body")))

abbrev worse {ℓ} : {A : Type ℓ} → Result A Anyhow
worse = err (msg (text "bad body"))

-- A request without a body.
abbrev bare : Inputs
bare = record {
  credentials = bad;
  code = bad;
  message = bad;
  acceptance = bad;
  passwords = bad;
  invitee = worse;
  role = worse;
  marked = worse;
  article = worse;
  edited = worse;
  published = worse;
  deleted = worse;
  confirming = worse;
  disabling = worse;
  pagination = bad;
  uuid_of = λ parts. ok 2;
  secret = text "s";
  nonce = text "n";
}

abbrev user_row : ℕ → Text → Text → UserRow
user_row id name role = record {
  user_id = id;
  username = name;
  password_hash = text "pw";
  totp_secret = none;
  totp_enabled = false;
  role = some role;
  must_change_password = false;
}

abbrev tables_now : Db
tables_now = record two_posts {
  users = user_row 1 (text "ann") (text "admin") ∷ user_row 2 (text "bob") (text "user") ∷ [];
}

abbrev with_token : Text → Text → Request
with_token method path = record {
  method = method;
  path = path;
  uri_path = path;
  headers = (text "x-xsrf-token", text "t") ∷ [];
  cookies = (text "XSRF-TOKEN", text "t") ∷ [];
}

abbrev visits : Text → Text → Inputs → Visit
visits method path input = record {
  env = quiet;
  request = with_token method path;
  input = input;
  pool = tables_now;
}

-- Ann signs in, and makes bob an admin.
abbrev ann_signs_in : Visit
ann_signs_in =
    visits (text "POST") (text "/v1/login")
      (record bare { credentials = ok (record { username = text "ann"; password = text "pw" }) })

abbrev promotes_bob : Visit
promotes_bob =
    visits (text "PATCH") (text "/v1/admin/users/bob/role") (record bare { role = ok admin })

abbrev keeps_it : Text → Response → Result Response Anyhow
keeps_it token r = ok r

abbrev fresh : Bool × List (Text × Json)
fresh = (true, [])

signed_in : Bool × List (Text × Json)
signed_in = (visit in_list jwt app keeps_it ann_signs_in fresh).session

signed_in_test :
    signed_in
    ≡ (true, (text "user_role", Json.str (text "admin")) ∷ (text "user_id", Json.num 1) ∷ [])
unfolding signed_in visit text_eq get parts scope_of validate_credentials
signed_in_test = refl

promoted_test :
    (visit in_list jwt app keeps_it promotes_bob signed_in).pool
    ≡ (set_user_role quiet 2 admin tables_now).1
unfolding signed_in visit text_eq get parts scope_of validate_credentials parse
promoted_test = refl

empty_first : (key : Text) → in_list.entry fresh key ≡ none
unfolding get
empty_first key = refl

-- Ann has signed in before, and out again.
abbrev ann_signs_out : Visit
ann_signs_out = visits (text "POST") (text "/v1/logout") bare

signed_out : Bool × List (Text × Json)
signed_out = (visit in_list jwt app keeps_it ann_signs_out signed_in).session

signed_out_test : (signed_out ≡ (false, [])) × (signs_out ann_signs_out ≡ true)
unfolding signed_out signed_in visit text_eq get parts scope_of validate_credentials endpoint_for
signed_out_test = (refl, refl)

abbrev twice : List Visit
twice = ann_signs_in ∷ ann_signs_out ∷ ann_signs_in ∷ []

ann_comes_back : Visited in_list jwt app keeps_it twice signed_in
unfolding signed_in signed_out
ann_comes_back =
    returns ann_signs_in (ann_signs_out ∷ ann_signs_in ∷ []) signed_out fresh
      (returns ann_signs_out (ann_signs_in ∷ []) signed_in signed_in
        (returns ann_signs_in [] fresh fresh (arrives fresh empty_first) (λ key. refl) refl)
        (λ key. refl) (ap (λ s. s.0) signed_in_test))
      (λ key. ap (λ s. in_list.entry s key) (sym signed_out_test.0)) refl

visit-Permitted_example :
    Permitted
      (Proved app twice)
      (ProvedAdmin app twice)
      quiet
      promotes_bob.request
      tables_now
      (visit in_list jwt app keeps_it promotes_bob signed_in).pool
visit-Permitted_example =
    visit-Permitted in_list jwt app keeps_it in_list-IsLawful in_list-IsReliable promotes_bob twice
      signed_in signed_in ann_comes_back (λ key. refl)

-- Another site makes Ann's browser ask for a secret.
abbrev asks_secret : Visit
asks_secret = record (visits (text "GET") (text "/v1/admin/totp/setup") bare) {
  request = record {
    method = text "GET";
    path = text "/v1/admin/totp/setup";
    uri_path = text "/v1/admin/totp/setup";
    headers = [];
    cookies = [];
  };
}

abbrev of_ann : World in_list
of_ann = record { pool = tables_now; session = signed_in }

forged-HasLittle_example :
    HasLittle in_list in_list-IsLawful jwt app quiet asks_secret.request bare of_ann
      (respond_to in_list jwt app quiet asks_secret.request bare keeps_it of_ann).1
unfolding text_eq
forged-HasLittle_example =
    forged-HasLittle in_list in_list-IsLawful jwt app quiet asks_secret.request bare of_ann keeps_it
      (inl refl)

-- It is stored.
stored_test :
    (visit in_list jwt app keeps_it asks_secret signed_in).pool
    ≡ update_user 1 (set_secret (text "ns")) tables_now
unfolding signed_in visit text_eq get parts scope_of validate_credentials parse as_bytes
stored_test = refl

abbrev empty_tables : Db
empty_tables = record two_posts { blog_posts = [] }

empty : IsFirst empty_tables
empty = record {
  no_keys = refl;
  no_posts = refl;
  no_invitations = refl;
  users = record { ids = λ id. omega arith; names = λ name. omega arith };
  well = refl;
}

abbrev inserts_it : Request
inserts_it = record (with_token (text "POST") (text "/v1/admin/blog/post")) {
  headers = (text "x-xsrf-token", text "t") ∷ (text "idempotency-key", text "k") ∷ [];
}

abbrev with_form : Inputs
with_form = record bare { article = ok form }

Served-IsSound_example :
    IsSound
      (respond_to in_list jwt app quiet inserts_it with_form keeps_it
        (record { pool = empty_tables; session = signed_in })).1.pool
Served-IsSound_example = Served-IsSound in_list jwt app keeps_it (
    Served.answers (record { pool = empty_tables; session = signed_in }) quiet inserts_it with_form
      (opens empty_tables empty))
