-- ===== src/Users/Totp/Enrolled.antt =====
-- The secret that src/routes/admin/dashboard/totp/setup.rs shows, and the one that a code is checked
-- against later, in confirm.rs and in src/routes/verify_totp/post.rs.
use portfolio_server.Users.Totp.{totp_setup, answer_uri}
use portfolio_server.Users.Rows.{has_user}
use portfolio_server.Errors.Web.{WebError}
use portfolio_server.Http.{Response, Json}
use portfolio_server.Crypto.{Cipher, encrypt, decrypt-encrypt}
use portfolio_server.Prelude.{
  ℕ, Bytes, as_bytes, Text, Result, ◌≡◌, length, ok, find?, some, false, text, arith, sym, ◌∙◌,
  refl, ap, Bool-cases, Result-cases, inl, inr, Option-cases, Bool,
}
use portfolio_server.Auth.VerifyTotp.{TotpLib, check_code}
use portfolio_server.Db.{UserRow, Db}
use portfolio_server.Env.{Env, respond}
use portfolio_server.Users.Totp.Machine.{
  Factor, Move, manage, sets_up, factor_of, pending, is_on, already_set_up, set_up, failed,
}
use portfolio_server.Users.Totp.Refines.{manage-Moved}
use portfolio_server.Crypto

-- What totp-rs does with the text of a secret: its bytes are read back, and it makes the same codes.
pub record IsFaithful (lib : TotpLib) (secret : Bytes) : Type 0 where
  pub reads : lib.from_utf8 (as_bytes (lib.to_encoded secret)) ≡ ok (lib.to_encoded secret)
  pub same :
      (name : Text) → lib.new_totp (lib.to_encoded secret) name ≡ lib.new_raw_totp secret name

-- The row holds the encrypted secret, and is not yet on.
stored_secret :
    {env : Env} {id : ℕ} {username : Text} {pool : Db} {lib : TotpLib} {cipher : Cipher}
    {key secret nonce : Bytes} {f g : Factor} {r : Result Response WebError} {b : Bool}
    → Move env id username pool (sets_up lib cipher key secret nonce) f r g b
    → (answer : Response) → r ≡ ok answer
    → is_on f ≡ false
    → (encrypted : Bytes) × (g ≡ pending encrypted)
      × (encrypt cipher nonce key (as_bytes (lib.to_encoded secret)) ≡ ok encrypted)
      × (answer_uri env lib secret id ≡ ok answer)
stored_secret (failed e) answer ok_answer free = ground arith
stored_secret (already_set_up was) answer ok_answer free = ground arith
stored_secret (set_up {encrypted = encrypted} free' sealed was) answer ok_answer free =
    (encrypted, refl, sealed, sym was ∙ ok_answer)

row_pending :
    (row : UserRow) (s : Bytes)
    → factor_of row ≡ pending s
    → (row.totp_secret ≡ some s) × (row.totp_enabled ≡ false)
row_pending row s h = elim (Bool-cases row.totp_enabled) [
  | inl enabled ↦ ground (arith, h, enabled)
  | inr free ↦ elim (Option-cases row.totp_secret) [
    | inl nothing ↦ ground (arith, h, free, nothing)
    | inr (t, there) ↦ (ground (arith, h, free, there), free)
  ]
]

-- A set-up that is answered stores a secret that has the codes of the address that it shows: every
-- later check of a code against the stored secret, under the same key, is the library's check against
-- the one-time password of that address. The user is there, with the factor not on, the text of the
-- user's identifier is the same then, the cipher and totp-rs do what they document, and the nonce has
-- 12 bytes.
pub totp_setup-check_code :
    (env env' : Env) (lib : TotpLib) (cipher : Cipher) (key secret nonce : Bytes) (id : ℕ)
    (pool after : Db) (row : UserRow) (answer : Response)
    → Crypto.IsLawful cipher
    → IsFaithful lib secret
    → length nonce ≡ 12
    → env'.uuid_text id ≡ env.uuid_text id
    → find? (has_user id) pool.users ≡ some row
    → row.totp_enabled ≡ false
    → totp_setup env lib cipher key secret nonce id pool ≡ (ok answer, after)
    → (row' : UserRow) × (encrypted : Bytes) × (totp : Bytes) × (find? (has_user id) after.users
        ≡ some row')
      × (row'.totp_secret ≡ some encrypted)
      × (answer
          ≡ respond env 200
              (Json.field (text "otpauth_uri") (Json.str (lib.get_url totp)) Json.end))
      × ((code : Text)
          → check_code env' lib cipher key id encrypted code ≡ lib.check_current totp code)
unfolding manage check_code
totp_setup-check_code env env' lib cipher key secret nonce id pool after row answer lawful faithful
      twelve name here free done =
    let call = sets_up lib cipher key secret nonce in
    let moved = manage-Moved env call id pool row here in
    let off : is_on (factor_of row) ≡ false = ground (arith, free) in
    let (encrypted, stored, sealed, shown) =
      stored_secret moved.move answer (ap (λ o. o.0) done) off in
    elim (Result-cases (lib.new_raw_totp secret (env.uuid_text id))) [
      | inr (e, bad) ↦ ground (arith, bad, shown)
      | inl (totp, made) ↦ (
        moved.row',
        encrypted,
        totp,
        rw (ap (λ o. o.1) done) at moved.found,
        (row_pending moved.row' encrypted stored).0,
        ground (arith, made, shown),
        λ code.
            rw
              (
                decrypt-encrypt cipher nonce key (as_bytes (lib.to_encoded secret)) encrypted lawful
                    twelve sealed,
                faithful.reads,
                name,
                faithful.same (env.uuid_text id),
                made,
                check_code,
              )
              refl,
      )
    ]
