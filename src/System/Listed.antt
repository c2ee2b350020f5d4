-- ===== src/System/Listed.antt =====
-- src/routes/admin/dashboard/user_actions/edit_users.rs, `get_all_users`, on tables that requests led
-- to.
use mathlib.Core.List.{Permᴰ}
use portfolio_server.Users.Accept.{is_user_role}
use portfolio_server.Users.Well.{is_well}
use portfolio_server.Prelude.{
  List, all, ◌≡◌, none, true, ok, refl, ◌∷◌, [], arith, some, Option-cases, inl, inr, Bool, ap,
}
use portfolio_server.Db.{Db, UserRow}
use portfolio_server.Env.{Env, select_users}
use portfolio_server.System.{Reachable}
use portfolio_server.System.Sound.{Reachable-IsSound}
use portfolio_server.Users.Admin.{User, get_all_users, read_users, user_of}

-- What the list shows of a row.
abbrev pub Shows : Env → List UserRow → List User → Type 0
Shows env [] [] = Unit {0}
Shows env (row ∷ rows) (user ∷ users) =
    ((user.user_id ≡ env.uuid_text row.user_id)
      × (user.username ≡ row.username)
      × (row.role ≡ some user.role)
      × (is_user_role user.role ≡ true)
      × (user.must_change_password ≡ row.must_change_password))
    × Shows env rows users
Shows env _ _ = ⊥

user_of-is_well :
    (env : Env) (row : UserRow)
    → is_well row ≡ true
    → (user : User) × (user_of env row ≡ ok user) × Shows env (row ∷ []) (user ∷ [])
user_of-is_well env row good = elim (Option-cases row.role) [
  | inl none_there ↦ ground (arith, good, none_there)
  | inr (role, there) ↦ (
    record {
      user_id = env.uuid_text row.user_id;
      username = row.username;
      role = role;
      must_change_password = row.must_change_password;
    },
    rw there refl,
    ((refl, refl, there, ground (arith, good, there), refl), tt),
  )
]

read_users-is_well :
    (env : Env) (rows : List UserRow)
    → all is_well rows ≡ true
    → (users : List User) × (read_users env rows ≡ ok users) × Shows env rows users
unfolding read_users
read_users-is_well env [] good = ([], refl, tt)
read_users-is_well env (row ∷ rows) good =
    let (user, it, shown) = user_of-is_well env row (ground (arith, good)) in
    let (users, rest, all_shown) = read_users-is_well env rows (ground (arith, good)) in
    (user ∷ users, rw (it, rest, read_users) refl, (shown.0, all_shown))

all-Perm :
    {A : Type 0} (p : A → Bool) {xs ys : List A} → Permᴰ xs ys → all p xs ≡ true → all p ys ≡ true
all-Perm p Permᴰ.nil h = h
all-Perm p (Permᴰ.cons same rest) h = ground (arith, ap p same, all-Perm p rest)
all-Perm p (Permᴰ.swap one two) h = ground (arith, ap p one, ap p two)
all-Perm p (Permᴰ.trans one two) h = all-Perm p two (all-Perm p one h)

-- In tables that requests led to, the list of users is answered unless its statement fails, and shows
-- every user once, in whatever order the database gives the rows, each with a role of the type
-- `user_role`.
pub get_all_users-Shows :
    (env : Env) (pool : Db)
    → Reachable pool
    → env.fault select_users ≡ none
    → Permᴰ pool.users (env.scan_users pool.users)
    → (users : List User) × (rows : List UserRow) × Permᴰ pool.users rows
      × (get_all_users env pool ≡ ok users)
      × Shows env rows users
unfolding get_all_users
get_all_users-Shows env pool reach up order =
    let rows = env.scan_users pool.users in
    let (users, read, shown) =
      read_users-is_well env rows (all-Perm is_well order (Reachable-IsSound reach).others.well) in
    (users, rows, order, rw (up, read, get_all_users) refl, shown)
