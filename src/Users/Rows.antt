-- ===== src/Users/Rows.antt =====
-- What the handlers of one user have in common: the row of an identifier, fetched and updated.
use portfolio_server.Prelude.{
  ℕ, Bool, ◌==◌, find?, update_where, none, some, Result, ok, err, List, ◌≡◌, false, ◌∷◌, arith, [],
  refl, ◌⊎◌, Option-cases, inr, inl,
}
use portfolio_server.Errors.Sql.{SqlError, row_not_found}
use portfolio_server.Env.{Env, Query}
use portfolio_server.Db.{Db, UserRow}

-- `WHERE user_id = $1`
abbrev pub has_user : ℕ → UserRow → Bool
has_user id row = row.user_id == id

-- `fetch_one` of the user's row
unfoldable pub fetch_user : Env → Query → ℕ → Db → Result UserRow SqlError
fetch_user env query id pool = elim (env.fault query) [
  | some e ↦ err e
  | none ↦ elim (find? (has_user id) pool.users) [ none ↦ err row_not_found | some row ↦ ok row ]
]

abbrev pub update_user : ℕ → (UserRow → UserRow) → Db → Db
update_user id f pool = record pool { users = update_where (has_user id) f pool.users }

pub find?-update_user_ne :
    (id j : ℕ) (f : UserRow → UserRow) (rows : List UserRow)
    → ((row : UserRow) → (f row).user_id ≡ row.user_id)
    → (j == id) ≡ false
    → find? (has_user j) (update_where (has_user id) f rows) ≡ find? (has_user j) rows
find?-update_user_ne id j f [] keeps apart = refl
find?-update_user_ne id j f (row ∷ rows) keeps apart =
    ground (arith, keeps row, find?-update_user_ne id j f rows keeps apart)

-- A user who is there is fetched, or the statement fails on its way.
pub fetch_user-cases :
    (env : Env) (query : Query) (id : ℕ) (pool : Db) (row : UserRow)
    → find? (has_user id) pool.users ≡ some row
    → ((e : SqlError) × (fetch_user env query id pool ≡ err e))
      ⊎ (fetch_user env query id pool ≡ ok row)
unfolding fetch_user
fetch_user-cases env query id pool row here = elim (Option-cases (env.fault query)) [
  | inr (e, down) ↦ inl (e, rw (down, fetch_user) refl)
  | inl up ↦ inr (rw (up, here, fetch_user) refl)
]
