-- ===== src/Users/Well.antt =====
-- The columns of a user's row that other code relies on: the secret of a factor that is on, and the
-- role. The calls of src/routes/admin/dashboard/totp on them.
use portfolio_server.Types.User.{to_string, user, UserRole, admin, chat_user}
use portfolio_server.Users.Rows.{fetch_user, has_user}
use portfolio_server.Errors.Web.{WebError}
use portfolio_server.Http.{Response}
use portfolio_server.Users.Totp.{totp_setup, totp_confirm, totp_disable, totp_status}
use portfolio_server.Prelude.{
  Bool, ◌&&◌, ℕ, none, false, some, true, Text, Result, ◌≡◌, find?, arith, refl, text_eq,
}
use portfolio_server.Db.{UserRow, Db}
use portfolio_server.Env.{Env}
use portfolio_server.Users.Accept.{is_user_role}
use portfolio_server.Users.Totp.Machine.{
  Factor, on, factor_of, Move, manage, TotpCall, Moved, failed, sets_up, told, confirms,
  already_set_up, disables, already_on, set_up, wrong_code, right_code, disabled, asks,
}

-- A second factor that is asked for has a secret.
abbrev pub has_secret : Factor → Bool
has_secret (on none) = false
has_secret _ = true

abbrev pub has_role : UserRow → Bool
has_role row = elim row.role [ none ↦ false | some role ↦ is_user_role role ]

abbrev pub is_well : UserRow → Bool
is_well row = has_secret (factor_of row) && has_role row

Move-has_secret :
    {env : Env} {id : ℕ} {username : Text} {pool : Db} {call : TotpCall} {f g : Factor}
    {r : Result Response WebError} {b : Bool}
    → Move env id username pool call f r g b
    → has_secret f ≡ true
    → has_secret g ≡ true
Move-has_secret (failed e) h = h
Move-has_secret (told answered) h = h
Move-has_secret (already_set_up answered) h = h
Move-has_secret (already_on answered) h = h
Move-has_secret (set_up free sealed answered) h = refl
Move-has_secret (wrong_code differs answered) h = refl
Move-has_secret (right_code fits answered) h = refl
Move-has_secret (disabled right answered) h = refl

-- A call of the second factor's handlers leaves a good row good.
pub Moved-is_well :
    {env : Env} {call : TotpCall} {id : ℕ} {pool : Db} {row : UserRow}
    {out : Result Response WebError × Db} (moved : Moved env call id pool row out)
    → moved.row'.role ≡ row.role
    → is_well row ≡ true
    → is_well moved.row' ≡ true
Moved-is_well moved same h = ground (arith, Move-has_secret moved.move, same)

-- A call of a user who is not there changes nothing.
pub manage-missing :
    (env : Env) (call : TotpCall) (id : ℕ) (pool : Db)
    → find? (has_user id) pool.users ≡ none
    → (manage env call id pool).1 ≡ pool
unfolding manage totp_setup totp_confirm totp_disable totp_status fetch_user
manage-missing env (sets_up lib cipher key secret nonce) id pool missing = ground (arith, missing)
manage-missing env (confirms lib cipher key code) id pool missing = ground (arith, missing)
manage-missing env (disables password) id pool missing = ground (arith, missing)
manage-missing env asks id pool missing = refl

pub is_user_role-to_string : (role : UserRole) → is_user_role (to_string role) ≡ true
unfolding to_string text_eq
is_user_role-to_string admin = refl
is_user_role-to_string user = refl
is_user_role-to_string chat_user = refl
