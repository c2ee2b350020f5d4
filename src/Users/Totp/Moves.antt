-- ===== src/Users/Totp/Moves.antt =====
-- How a handler of src/routes/admin/dashboard/totp makes a move: it leaves the table, or updates the
-- user's row.
use portfolio_server.Users.Totp.Machine.{
  on, TotpCall, is_on, pending, KeepsUser, Moved, Move, failed, factor_of,
}
use portfolio_server.Users.Rows.{has_user, update_user, find?-update_user_ne}
use portfolio_server.Prelude.{
  Option, true, some, Result, err, ◌≡◌, find?, refl, find?-update_same, inr, inl, subst, arith, sym,
}
use portfolio_server.Users.Totp.{
  Bytes, Bool, Env, UserRow, false, ℕ, Db, Response, WebError, set_secret,
}

pub only_factor :
    {secret : UserRow → Option Bytes} {enabled : UserRow → Bool}
    → KeepsUser (λ x. record x { totp_secret = secret x; totp_enabled = enabled x })
only_factor = record {
  ids = λ x. refl;
  names = λ x. refl;
  roles = λ x. refl;
  hashes = λ x. refl;
  duties = λ x. refl;
}

module _ (env : Env) (id : ℕ) (pool : Db) (row : UserRow)
    (here : find? (has_user id) pool.users ≡ some row) where
  -- A call that leaves the table as it was.
  pub kept :
      (call : TotpCall) (r : Result Response WebError)
      → Move env id row.username pool call (factor_of row) r (factor_of row) false
      → Moved env call id pool row (r, pool)
  kept call r move = record {
    row' = row;
    found = here;
    written = false;
    move = move;
    silent = λ _. refl;
    others = λ j apart. refl;
    change = inl refl;
  }

  pub updated :
      (call : TotpCall) (r : Result Response WebError) (f : UserRow → UserRow)
      → KeepsUser f
      → Move env id row.username pool call (factor_of row) r (factor_of (f row)) true
      → Moved env call id pool row (r, update_user id f pool)
  updated call r f keeps move = record {
    row' = f row;
    found = find?-update_same (has_user id) f pool.users row (λ x. rw (keeps.ids x) refl) here;
    written = true;
    move = move;
    silent = λ quiet. ground (arith, quiet);
    others = λ j apart. find?-update_user_ne id j f pool.users keeps.ids apart;
    change = inr (f, keeps, refl, refl);
  }

  pub by_run :
      (call : TotpCall) (out out' : Result Response WebError × Db)
      → out ≡ out'
      → Moved env call id pool row out'
      → Moved env call id pool row out
  by_run call out out' e moved = subst (Moved env call id pool row) (sym e) moved

  pub refused :
      (call : TotpCall) (out : Result Response WebError × Db) (e : WebError)
      → out ≡ (err e, pool)
      → Moved env call id pool row out
  refused call out e same = by_run call out (err e, pool) same (kept call (err e) (failed e))

  -- The factor by its two columns.
  pub factor-set_secret :
      (s : Bytes) → row.totp_enabled ≡ false → pending s ≡ factor_of (set_secret s row)
  factor-set_secret s free = ground (arith, free)

  pub factor_on : row.totp_enabled ≡ true → on row.totp_secret ≡ factor_of row
  factor_on enabled = ground (arith, enabled)

  pub factor_not_on : row.totp_enabled ≡ false → is_on (factor_of row) ≡ false
  factor_not_on free = ground (arith, free)

  pub factor_pending :
      (s : Bytes) → row.totp_enabled ≡ false → row.totp_secret ≡ some s → pending s ≡ factor_of row
  factor_pending s free secret = ground (arith, free, secret)

  pub is_on_factor : is_on (factor_of row) ≡ row.totp_enabled
  is_on_factor = ground arith
