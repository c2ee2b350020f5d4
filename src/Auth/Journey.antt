-- ===== src/Auth/Journey.antt =====
-- The life of one session, over the requests that may change it: src/routes/login/post.rs,
-- src/routes/verify_totp/post.rs and src/routes/login/get.rs. No other handler writes to it.
use portfolio_server.Auth.Password.{validate_credentials}
use portfolio_server.Types.User.{UserRole}
use portfolio_server.Crypto.{Cipher}
use portfolio_server.Db.{Db}
use portfolio_server.Auth.VerifyTotp.{
  TotpLib, verify_totp, get_totp_secret_role_and_flags, check_code,
}
use portfolio_server.Env.{Env}
use portfolio_server.Auth.Login.{login, LoginRequest, logout, check_auth}
use portfolio_server.Prelude.{
  List, ℕ, false, Text, Bool, ◌∷◌, ◌⊎◌, ◌≡◌, Bytes, ok, true, none, some, [], inl, inr,
}
use portfolio_server.Session.Typed.{SessionLib, get_user_id, get_mfa_pending_user_id}

pub data Step : Type 0 where
  logs_in : Env → LoginRequest → Db → Step
  verifies : Env → TotpLib → Cipher → Bytes → Text → Db → Step
  logs_out : Step
  checks : Env → Step

-- A step in which the credentials were those of a user, for whom a second factor is asked for or
-- not.
pub data GavePassword (id : ℕ) (totp : Bool) : Step → Type 0 where
  password :
      (env : Env) (request : LoginRequest) (pool : Db) (flags : Bool × UserRole)
      → validate_credentials env
          (record { username = request.username; password = request.password })
          pool
        ≡ ok (id, (totp, flags))
      → GavePassword id totp (logs_in env request pool)

-- A step in which the code was right for the secret of a user.
pub data GaveCode (id : ℕ) : Step → Type 0 where
  code :
      (env : Env) (lib : TotpLib) (cipher : Cipher) (key : Bytes) (digits : Text) (pool : Db)
      (encrypted : Bytes) (flags : UserRole × Bool)
      → get_totp_secret_role_and_flags env id pool ≡ ok (some (encrypted, flags))
      → check_code env lib cipher key id encrypted digits ≡ ok true
      → GaveCode id (verifies env lib cipher key digits pool)

-- Something that one of a sequence has done, the latest first.
pub data Happened {A : Type 0} (P : A → Type 0) : List A → Type 0 where
  now : {x : A} {xs : List A} → P x → Happened P (x ∷ xs)
  before : {x : A} {xs : List A} → Happened P xs → Happened P (x ∷ xs)

-- The steps since the last one that signed out.
abbrev pub since_sign_out : List Step → List Step
since_sign_out [] = []
since_sign_out (logs_in env request pool ∷ steps) = logs_in env request pool ∷ since_sign_out steps
since_sign_out (verifies env lib cipher key digits pool ∷ steps) =
    verifies env lib cipher key digits pool ∷ since_sign_out steps
since_sign_out (logs_out ∷ steps) = []
since_sign_out (checks env ∷ steps) = checks env ∷ since_sign_out steps

pub Happened-first :
    (P : Step → Type 0) (step : Step) (steps : List Step)
    → Happened P (since_sign_out (step ∷ steps))
    → P step ⊎ Happened P (since_sign_out steps)
Happened-first P (logs_in env request pool) steps (now p) = inl p
Happened-first P (logs_in env request pool) steps (before p) = inr p
Happened-first P (verifies env lib cipher key digits pool) steps (now p) = inl p
Happened-first P (verifies env lib cipher key digits pool) steps (before p) = inr p
Happened-first P logs_out steps p = elim p [ ]
Happened-first P (checks env) steps (now p) = inl p
Happened-first P (checks env) steps (before p) = inr p

-- Who may be signed in after the steps: who gave a password that is enough, or a password and a
-- code.
abbrev pub Authenticated : ℕ → List Step → Type 0
Authenticated id steps =
    Happened (GavePassword id false) steps
    ⊎ (Happened (GavePassword id true) steps × Happened (GaveCode id) steps)

module _ (S : SessionLib) where
  unfoldable pub after : Step → S.State → S.State
  unfolding login verify_totp logout check_auth
  after (logs_in env request pool) s = (login S env request pool s).1
  after (verifies env lib cipher key digits pool) s =
      (verify_totp S env lib cipher key digits pool s).1
  after logs_out s = (logout S s).1
  after (checks env) s = (check_auth S env s).1

  -- The states that a session can have: it begins without entries, and each request finds the
  -- entries that the one before it left.
  pub data Reach : List Step → S.State → Type 0 where
    begins : (s : S.State) → ((key : Text) → S.entry s key ≡ none) → Reach [] s
    goes_on :
        (step : Step) (steps : List Step) (s s' : S.State)
        → Reach steps s
        → ((key : Text) → S.entry s' key ≡ S.entry s key)
        → S.is_live s' ≡ true
        → Reach (step ∷ steps) (after step s')

  -- What holds of the entries after the steps.
  pub record Justified (steps : List Step) (s : S.State) : Type 0 where
    pub user_id : (id : ℕ) → get_user_id S s ≡ ok (some id) → Authenticated id steps
    pub pending :
        (id : ℕ)
        → get_mfa_pending_user_id S s ≡ ok (some id)
        → Happened (GavePassword id true) steps
