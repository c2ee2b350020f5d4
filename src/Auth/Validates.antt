-- ===== src/Auth/Validates.antt =====
-- Whom `validate_credentials` of src/authentication/password.rs lets in.
use portfolio_server.Prelude.{
  ◌≡◌, none, ok, ◌↔◌, find?, text_eq, some, true, arith, Option-cases, ◌≢◌, inl, inr,
}
use portfolio_server.Db.{Db, UserRow}
use portfolio_server.Env.{Env, select_credentials}
use portfolio_server.Auth.Password.{validate_credentials, Credentials, Validated, role_or_user}

module _ (env : Env) (credentials : Credentials) (pool : Db) (v : Validated) where
  abbrev IsAccepted : UserRow → Type 0
  IsAccepted row =
      (env.is_phc row.password_hash ≡ true)
      × (env.verify_password row.password_hash credentials.password ≡ true)
      × (v ≡ (row.user_id, (row.totp_enabled, (row.must_change_password, role_or_user row.role))))

  IsAccepted-row :
      (row : UserRow)
      → env.fault select_credentials ≡ none
      → find? (λ r. text_eq r.username credentials.username) pool.users ≡ some row
      → (validate_credentials env credentials pool ≡ ok v) ↔ IsAccepted row
  unfolding validate_credentials
  IsAccepted-row row up found = ground (arith, up, found)

  accepted_known :
      env.fault select_credentials ≡ none
      → validate_credentials env credentials pool ≡ ok v
      → find? (λ r. text_eq r.username credentials.username) pool.users ≢ none
  unfolding validate_credentials
  accepted_known up accepted missing = ground (arith, up, missing)

-- Credentials are accepted exactly when a user has the name and the password fits its stored hash,
-- and then with what is stored of that user; an unknown user is refused even where the made-up hash
-- fits. The statement reaches the database.
pub validate_credentials_iff :
    (env : Env) (credentials : Credentials) (pool : Db) (v : Validated)
    → env.fault select_credentials ≡ none
    → (validate_credentials env credentials pool ≡ ok v) ↔ (
        (row : UserRow) × (find? (λ r. text_eq r.username credentials.username) pool.users
          ≡ some row)
        × (env.is_phc row.password_hash ≡ true)
        × (env.verify_password row.password_hash credentials.password ≡ true)
        × (v
            ≡ (row.user_id, (row.totp_enabled, (row.must_change_password, role_or_user row.role)))))
validate_credentials_iff env credentials pool v up = (
  λ accepted.
      elim (Option-cases (find? (λ r. text_eq r.username credentials.username) pool.users)) [
        | inl missing ↦ elim (accepted_known env credentials pool v up accepted missing) [ ]
        | inr (row, found) ↦
            let (phc, fits, same) =
              (IsAccepted-row env credentials pool v row up found).0 accepted in
            (row, found, phc, fits, same)
      ],
  λ (row, found, phc, fits, same).
      (IsAccepted-row env credentials pool v row up found).1 (phc, fits, same),
)
