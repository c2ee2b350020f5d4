-- ===== src/Tests/Samples.antt =====
-- A quiet environment, a few requests and small tables.
use portfolio_server.Prelude.{
  ℕ, Text, text, Bytes, false, ◌++◌, none, some, [], ◌∷◌, ok, true, text_eq,
}
use portfolio_server.Http.{Body, empty, bytes, json, Json, Request}
use portfolio_server.Env.{Env}
use portfolio_server.Db.{Db}
use portfolio_server.Types.Article.{ArticleRecordRaw, ArticleForm, markdown}

abbrev rendered : Body → Bytes
rendered empty = []
rendered (bytes b) = b
rendered (json j) = text "{}"

abbrev pub quiet : Env
quiet = record {
  now = 5000;
  now_exact = 5000000000;
  new_uuid = 9;
  fault = λ q. none;
  to_str = λ b. some b;
  builder_headers = λ b. [];
  to_bytes = λ b. ok (rendered b);
  display_db = λ t. text "error returned from database: " ++ t;
  uuid_text = λ n. text "uuid";
  time_text = λ n. text "time";
  sections_to_json = λ s. Json.nil;
  sections_from_json = λ j. ok [];
  placeholder = λ n. text "$1";
  parse_email = λ e. some e;
  md5 = λ t. t;
  is_valid_email = λ e. true;
  new_token = text "token";
  sha256_hex = λ t. text "#" ++ t;
  is_phc = λ h. true;
  verify_password = λ h p. text_eq h p;
  hash_password = λ p. ok p;
  render = λ e. ([], Body.empty);
  scan_users = λ rows. rows;
}

abbrev pub asks : Text → Text → Text → Request
asks method path key = record {
  method = method;
  path = path;
  uri_path = path;
  headers = (text "idempotency-key", key) ∷ [];
  cookies = [];
}

abbrev pub post : ℕ → Text → ArticleRecordRaw
post id slug = record {
  post_id = id;
  title = text "T";
  slug = slug;
  excerpt = text "E";
  sections = Json.nil;
  author = text "A";
  published = false;
  created_at = id;
  updated_at = id;
}

abbrev pub form : ArticleForm
form = record {
  title = text "New Post";
  excerpt = text "E";
  sections = markdown (text "hello") ∷ [];
  author = text "A";
}

abbrev pub two_posts : Db
two_posts = record {
  idempotency = [];
  messages = [];
  rate_limits = [];
  blog_posts = post 1 (text "a") ∷ post 2 (text "b") ∷ [];
  users = [];
  invitations = [];
}
