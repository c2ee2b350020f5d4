-- ===== src/Session/Typed.antt =====
-- src/session_state.rs. The session of actix-session is a parameter: a state that maps keys to JSON
-- values, with the library's operations on it.
use portfolio_server.Prelude.{
  ℕ, Text, text, text_eq, Bool, true, Option, none, some, Result, ok, err, if◌then◌else◌, ◌≡◌,
}
use portfolio_server.Http.{Json}
use portfolio_server.Errors.Sql.{Anyhow, msg}
use portfolio_server.Types.User.{UserRole, parse, to_string}

-- `Session`. `entry` is the value that `get` deserialises, `is_live` holds until `purge`, and the
-- last two are serde's codec of UUIDs.
pub record SessionLib : Type 1 where
  pub State : Type 0
  pub entry : State → Text → Option Json
  pub insert : Text → Json → State → Result (Unit {0}) Anyhow × State
  pub remove : Text → State → State
  pub renew : State → State
  pub purge : State → State
  pub is_live : State → Bool
  pub uuid_to_json : ℕ → Json
  pub uuid_from_json : Json → Result ℕ Anyhow

-- How the library documents them.
pub record IsLawful (S : SessionLib) : Type 0 where
  pub insert-ok :
      (s : S.State) (k j : Text) (v : Json)
      → S.is_live s ≡ true
      → (S.insert k v s).0 ≡ ok tt
      → S.entry (S.insert k v s).1 j ≡ (if text_eq k j then some v else S.entry s j)
  pub insert-err :
      (s : S.State) (k j : Text) (v : Json) (e : Anyhow)
      → (S.insert k v s).0 ≡ err e
      → S.entry (S.insert k v s).1 j ≡ S.entry s j
  pub entry-remove :
      (s : S.State) (k j : Text)
      → S.entry (S.remove k s) j ≡ (if text_eq k j then none else S.entry s j)
  pub entry-renew : (s : S.State) (j : Text) → S.entry (S.renew s) j ≡ S.entry s j
  pub entry-purge : (s : S.State) (j : Text) → S.entry (S.purge s) j ≡ none
  pub live-insert : (s : S.State) (k : Text) (v : Json) → S.is_live (S.insert k v s).1 ≡ S.is_live s
  pub live-remove : (s : S.State) (k : Text) → S.is_live (S.remove k s) ≡ S.is_live s
  pub live-renew : (s : S.State) → S.is_live (S.renew s) ≡ S.is_live s
  pub uuid : (id : ℕ) → S.uuid_from_json (S.uuid_to_json id) ≡ ok id

abbrev pub user_id_key : Text
user_id_key = text "user_id"

abbrev pub mfa_pending_key : Text
mfa_pending_key = text "mfa_pending_user_id"

abbrev pub user_role_key : Text
user_role_key = text "user_role"

-- `get::<Uuid>`
abbrev pub read_uuid : (S : SessionLib) → Option Json → Result (Option ℕ) Anyhow
read_uuid S none = ok none
read_uuid S (some j) = elim (S.uuid_from_json j) [ ok id ↦ ok (some id) | err e ↦ err e ]

abbrev pub role_of : Result UserRole (Unit {0}) → Option UserRole
role_of (ok role) = some role
role_of (err _) = none

-- `get::<String>`, and the role of that name.
abbrev pub read_role : Option Json → Result (Option UserRole) Anyhow
read_role none = ok none
read_role (some (Json.str t)) = ok (role_of (parse t))
read_role (some _) = err (msg (text "Failed to deserialize the JSON-encoded session data"))

module _ (S : SessionLib) where
  unfoldable pub renew : S.State → S.State
  renew s = S.renew s

  unfoldable pub insert_user_id : ℕ → S.State → Result (Unit {0}) Anyhow × S.State
  insert_user_id id s = S.insert user_id_key (S.uuid_to_json id) s

  unfoldable pub get_user_id : S.State → Result (Option ℕ) Anyhow
  get_user_id s = read_uuid S (S.entry s user_id_key)

  unfoldable pub insert_mfa_pending_user_id : ℕ → S.State → Result (Unit {0}) Anyhow × S.State
  insert_mfa_pending_user_id id s = S.insert mfa_pending_key (S.uuid_to_json id) s

  unfoldable pub get_mfa_pending_user_id : S.State → Result (Option ℕ) Anyhow
  get_mfa_pending_user_id s = read_uuid S (S.entry s mfa_pending_key)

  unfoldable pub clear_mfa_pending : S.State → S.State
  clear_mfa_pending s = S.remove mfa_pending_key s

  unfoldable pub clear_user_id : S.State → S.State
  clear_user_id s = S.remove user_id_key s

  unfoldable pub insert_user_role : UserRole → S.State → Result (Unit {0}) Anyhow × S.State
  insert_user_role role s = S.insert user_role_key (Json.str (to_string role)) s

  unfoldable pub get_user_role : S.State → Result (Option UserRole) Anyhow
  unfolding parse
  get_user_role s = read_role (S.entry s user_role_key)

  unfoldable pub log_out : S.State → S.State
  log_out s = S.purge s
