-- ===== src/Users/Totp/Machine.antt =====
-- The second factor of a user as a state machine, and that the handlers of
-- src/routes/admin/dashboard/totp implement it.
use portfolio_server.Users.Rows.{has_user, update_user}
use portfolio_server.Prelude.{
  Option, none, true, some, Result, err, ◌≡◌, ok, text, as_bytes, find?, ◌==◌, ◌⊎◌,
}
use portfolio_server.Users.Totp.{
  totp_status, totp_setup, totp_confirm, totp_disable, answer_uri, Cipher, Bytes, Bool, Env,
  UserRow, Text, if◌then◌else◌, false, ℕ, Db, Response, WebError, respond, flag, finish, encrypt,
}
use portfolio_server.Auth.VerifyTotp.{TotpLib, check_code}
use portfolio_server.Auth.Password.{Validated, validate_credentials}

-- No secret, a secret whose code was not given yet, and a factor that is asked for. The secret is
-- optional in the last, since the columns would allow it to be missing.
pub data Factor : Type 0 where
  off : Factor
  pending : Bytes → Factor
  on : Option Bytes → Factor

abbrev pub factor_of : UserRow → Factor
factor_of row =
    if row.totp_enabled
    then on row.totp_secret
    else elim row.totp_secret [ none ↦ off | some secret ↦ pending secret ]

pub data TotpCall : Type 0 where
  sets_up : TotpLib → Cipher → Bytes → Bytes → Bytes → TotpCall
  confirms : TotpLib → Cipher → Bytes → Text → TotpCall
  disables : Text → TotpCall
  asks : TotpCall

unfoldable pub manage : Env → TotpCall → ℕ → Db → Result Response WebError × Db
unfolding totp_setup totp_confirm totp_disable totp_status
manage env (sets_up lib cipher key secret nonce) id pool =
    totp_setup env lib cipher key secret nonce id pool
manage env (confirms lib cipher key code) id pool = totp_confirm env lib cipher key code id pool
manage env (disables password) id pool = totp_disable env password id pool
manage env asks id pool = (totp_status env id pool, pool)

abbrev pub is_on : Factor → Bool
is_on off = false
is_on (pending s) = false
is_on (on s) = true

-- What a call may answer, and do to the factor of the user who sent it; and whether it writes.
pub data Move (env : Env) (id : ℕ) (username : Text) (pool : Db)
    : TotpCall → Factor → Result Response WebError → Factor → Bool → Type 0 where
  failed :
      {call : TotpCall} {f : Factor} (e : WebError)
      → Move env id username pool call f (err e) f false
  told :
      {f : Factor} {r : Result Response WebError}
      → r ≡ ok (respond env 200 (flag (text "totp_enabled") (is_on f)))
      → Move env id username pool asks f r f false
  already_set_up :
      {lib : TotpLib} {cipher : Cipher} {key secret nonce : Bytes} {s : Option Bytes}
      {r : Result Response WebError}
      → r ≡ ok (finish 409)
      → Move env id username pool (sets_up lib cipher key secret nonce) (on s) r (on s) false
  already_on :
      {lib : TotpLib} {cipher : Cipher} {key : Bytes} {code : Text} {s : Option Bytes}
      {r : Result Response WebError}
      → r ≡ ok (finish 409)
      → Move env id username pool (confirms lib cipher key code) (on s) r (on s) false
  set_up :
      {lib : TotpLib} {cipher : Cipher} {key secret nonce encrypted : Bytes} {f : Factor}
      {r : Result Response WebError}
      → is_on f ≡ false
      → encrypt cipher nonce key (as_bytes (lib.to_encoded secret)) ≡ ok encrypted
      → r ≡ answer_uri env lib secret id
      → Move env id username pool (sets_up lib cipher key secret nonce) f r (pending encrypted) true
  wrong_code :
      {lib : TotpLib} {cipher : Cipher} {key secret : Bytes} {code : Text}
      {r : Result Response WebError}
      → check_code env lib cipher key id secret code ≡ ok false
      → r ≡ ok (finish 401)
      → Move env id username pool
          (confirms lib cipher key code)
          (pending secret)
          r
          (pending secret)
          false
  right_code :
      {lib : TotpLib} {cipher : Cipher} {key secret : Bytes} {code : Text}
      {r : Result Response WebError}
      → check_code env lib cipher key id secret code ≡ ok true
      → r ≡ ok (finish 200)
      → Move env id username pool
          (confirms lib cipher key code)
          (pending secret)
          r
          (on (some secret))
          true
  disabled :
      {f : Factor} {password : Text} {v : Validated} {r : Result Response WebError}
      → validate_credentials env (record { username = username; password = password }) pool ≡ ok v
      → r ≡ ok (finish 200)
      → Move env id username pool (disables password) f r off true

-- What an UPDATE of the columns of the second factor keeps.
pub record KeepsUser (f : UserRow → UserRow) : Type 0 where
  pub ids : (x : UserRow) → (f x).user_id ≡ x.user_id
  pub names : (x : UserRow) → (f x).username ≡ x.username
  pub roles : (x : UserRow) → (f x).role ≡ x.role
  pub hashes : (x : UserRow) → (f x).password_hash ≡ x.password_hash
  pub duties : (x : UserRow) → (f x).must_change_password ≡ x.must_change_password

-- The row of the user afterwards, the move that it made, that one which does not write leaves all
-- tables as they were, and that every other row is as it was.
pub record Moved (env : Env) (call : TotpCall) (id : ℕ) (pool : Db) (row : UserRow)
    (out : Result Response WebError × Db) : Type 0 where
  pub row' : UserRow
  pub found : find? (has_user id) out.1.users ≡ some row'
  pub written : Bool
  pub move : Move env id row.username pool call (factor_of row) out.0 (factor_of row') written
  pub silent : written ≡ false → out.1 ≡ pool
  pub others :
      (j : ℕ) → (j == id) ≡ false → find? (has_user j) out.1.users ≡ find? (has_user j) pool.users
  pub change :
      (out.1 ≡ pool)
      ⊎ ((f : UserRow → UserRow) × KeepsUser f × (row' ≡ f row) × (out.1 ≡ update_user id f pool))
