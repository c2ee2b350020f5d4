-- ===== src/Prelude/Tables.antt =====
-- What UPDATE and DELETE do to a table, seen through counting and searching.
use Prim.Native.Nat.{◌≤◌}
use mathlib.Core.Path.{◌≡◌, refl, ap, subst}
use mathlib.Core.Bool.{Bool, true, false, ◌||◌}
use mathlib.Core.List.{List, [], ◌∷◌}
use mathlib.Core.Option.{Option, none, some}
use native.Mathlib.Omega.{arith}
use mathlib.Core.Logic.{inl, inr}
use portfolio_server.Prelude.Tests.{if◌then◌else◌, Bool-cases}
use portfolio_server.Prelude.Lists.{all, any, count, find?, update_where, delete_where}

abbrev pub map_option {ℓ κ} : {A : Type ℓ} {B : Type κ} → (A → B) → Option A → Option B
map_option f none = none
map_option f (some a) = some (f a)

module _ {ℓ} {A : Type ℓ} where
  -- What `find?` finds.
  pub found-holds : (p : A → Bool) (xs : List A) (x : A) → find? p xs ≡ some x → p x ≡ true
  found-holds p [] x here = ground arith
  found-holds p (y ∷ xs) x here = ground (arith, found-holds p xs x)

  pub found-all :
      (p q : A → Bool) (xs : List A) (x : A) → all q xs ≡ true → find? p xs ≡ some x → q x ≡ true
  found-all p q [] x good here = ground arith
  found-all p q (y ∷ xs) x good here = ground (arith, found-all p q xs x)

  pub count_of_any-false : (p : A → Bool) (xs : List A) → any p xs ≡ false → count p xs ≡ 0
  count_of_any-false p [] h = refl
  count_of_any-false p (x ∷ xs) h = ground (arith, count_of_any-false p xs)

  pub count_of_any : (p : A → Bool) (xs : List A) → any p xs ≡ true → 1 ≤ count p xs
  count_of_any p [] h = ground arith
  count_of_any p (x ∷ xs) h = ground (arith, count_of_any p xs)

  pub find?_of_any-false : (p : A → Bool) (xs : List A) → any p xs ≡ false → find? p xs ≡ none
  find?_of_any-false p [] h = refl
  find?_of_any-false p (x ∷ xs) h = ground (arith, find?_of_any-false p xs)

  module _ (p q : A → Bool) (f : A → A) (keeps : (x : A) → q (f x) ≡ q x) where
    pub find?-update_where :
        (xs : List A)
        → find? q (update_where p f xs) ≡ map_option (λ x. if p x then f x else x) (find? q xs)
    find?-update_where [] = refl
    find?-update_where (x ∷ xs) = ground (arith, keeps x, find?-update_where xs)

    pub count-update_where : (xs : List A) → count q (update_where p f xs) ≡ count q xs
    count-update_where [] = refl
    count-update_where (x ∷ xs) = ground (arith, keeps x, count-update_where xs)

  pub count-delete_where : (p q : A → Bool) (xs : List A) → count q (delete_where p xs) ≤ count q xs
  count-delete_where p q [] = omega arith
  count-delete_where p q (x ∷ xs) = ground (arith, count-delete_where p q xs)

  -- A search that no deleted row satisfies is not disturbed.
  pub find?-delete_where_ne :
      (p q : A → Bool) (apart : (x : A) → p x ≡ true → q x ≡ false) (xs : List A)
      → find? q (delete_where p xs) ≡ find? q xs
  find?-delete_where_ne p q apart [] = refl
  find?-delete_where_ne p q apart (x ∷ xs) =
      ground (arith, apart x, find?-delete_where_ne p q apart xs)

  pub any-delete_where : (p : A → Bool) (xs : List A) → any p (delete_where p xs) ≡ false
  any-delete_where p [] = refl
  any-delete_where p (x ∷ xs) = ground (arith, any-delete_where p xs)

-- The row that a search found, after an update of the rows that it looks for.
pub find?-update_same {ℓ} :
    {A : Type ℓ} (p : A → Bool) (f : A → A) (rows : List A) (row : A)
    → ((x : A) → p (f x) ≡ p x)
    → find? p rows ≡ some row
    → find? p (update_where p f rows) ≡ some (f row)
find?-update_same p f (x ∷ rows) row keeps here =
    ground (arith, keeps x, find?-update_same p f rows row keeps)
find?-update_same p f [] row keeps here = ground arith

pub any_or {ℓ} :
    {A : Type ℓ} (p q : A → Bool) (xs : List A)
    → any (λ x. p x || q x) xs ≡ false
    → (any p xs ≡ false) × (any q xs ≡ false)
any_or p q [] h = (refl, refl)
any_or p q (x ∷ xs) h = ground (arith, any_or p q xs)

-- A column whose values are compared by `same`, and the table where no value occurs twice.
abbrev pub IsUniqueBy {ℓ κ} : {A : Type ℓ} {B : Type κ} → (B → B → Bool) → (A → B) → List A → Type κ
IsUniqueBy {B = B} same column xs = (b : B) → count (λ x. same (column x) b) xs ≤ 1

module _ {ℓ κ} {A : Type ℓ} {B : Type κ} (same : B → B → Bool) (column : A → B) where
  -- A fresh row brings a value that is not there.
  pub insert-IsUniqueBy :
      (new : A) (xs : List A)
      → ((b c : B) → same b c ≡ true → b ≡ c)
      → any (λ old. same (column old) (column new)) xs ≡ false
      → IsUniqueBy same column xs
      → IsUniqueBy same column (new ∷ xs)
  insert-IsUniqueBy new xs sound free unique b = elim (Bool-cases (same (column new) b)) [
    | inr other ↦ rw other (unique b)
    | inl it ↦
        let none_there : any (λ x. same (column x) b) xs ≡ false =
          subst (λ c. any (λ x. same (column x) c) xs ≡ false) (sound (column new) b it) free in
        ground (arith, count_of_any-false (λ x. same (column x) b) xs none_there)
  ]

  -- An UPDATE that does not write the column.
  pub update-IsUniqueBy :
      (p : A → Bool) (f : A → A) (xs : List A)
      → ((x : A) → column (f x) ≡ column x)
      → IsUniqueBy same column xs
      → IsUniqueBy same column (update_where p f xs)
  update-IsUniqueBy p f xs keeps unique b =
      rw (count-update_where p (λ x. same (column x) b) f (λ x. ap (λ c. same c b) (keeps x)) xs)
        (unique b)

-- Rows that do not satisfy the condition are left alone.
pub update_where-none {ℓ} :
    {A : Type ℓ} (p : A → Bool) (f : A → A) (xs : List A)
    → count p xs ≡ 0
    → update_where p f xs ≡ xs
update_where-none p f [] h = refl
update_where-none p f (x ∷ xs) h = ground (arith, update_where-none p f xs)

-- What all rows have, after an UPDATE of one row that leaves it with it.
pub all-update_where {ℓ} :
    {A : Type ℓ} (p q : A → Bool) (f : A → A) (xs : List A)
    → count p xs ≤ 1
    → all q xs ≡ true
    → ((x : A) → find? p xs ≡ some x → q x ≡ true → q (f x) ≡ true)
    → all q (update_where p f xs) ≡ true
all-update_where p q f [] one good keeps = refl
all-update_where p q f (x ∷ xs) one good keeps = elim (Bool-cases (p x)) [
  | inl it ↦ ground (arith, it, update_where-none p f xs, keeps x)
  | inr other ↦ ground (
    arith,
    other,
    all-update_where p q f xs (ground (arith, other)) (ground arith)
        (λ y found. keeps y (ground (arith, other, found))),
  )
]
