-- ===== src/Prelude/Results.antt =====
-- `Result<T, E>`, and code that reads and writes a state and may fail. What was written before a
-- failure stays written in the state that comes back.
use mathlib.Core.Path.{◌≡◌, refl}
use mathlib.Core.Logic.{◌⊎◌, inl, inr}

pub data Result {ℓ κ} (A : Type ℓ) (E : Type κ) : Type (ℓ ⊔ κ) where
  ok : A → Result A E
  err : E → Result A E

-- `Result::map_err`
abbrev pub map_err {ℓ κ μ} :
    {A : Type ℓ} {E : Type κ} {F : Type μ} → (E → F) → Result A E → Result A F
map_err f (ok a) = ok a
map_err f (err e) = err (f e)

pub Result-cases {ℓ κ} :
    {A : Type ℓ} {E : Type κ} (r : Result A E) → ((a : A) × (r ≡ ok a)) ⊎ ((e : E) × (r ≡ err e))
Result-cases (ok a) = inl (a, refl)
Result-cases (err e) = inr (e, refl)

-- `?` between two results.
abbrev pub and_then {ℓ κ μ} :
    {A : Type ℓ} {B : Type κ} {E : Type μ} → Result A E → (A → Result B E) → Result B E
and_then (ok a) f = f a
and_then (err e) f = err e

pub and_then-ok {ℓ κ μ} :
    {A : Type ℓ} {B : Type κ} {E : Type μ} (r : Result A E) (f : A → Result B E) (b : B)
    → and_then r f ≡ ok b
    → (a : A) × (r ≡ ok a) × (f a ≡ ok b)
and_then-ok (ok a) f b e = (a, refl, e)
and_then-ok (err x) f b e = cc

abbrev pub Exec : Type 0 → Type 0 → Type 0 → Type 0
Exec S A E = S → Result A E × S

abbrev pub pure : {S A E : Type 0} → A → Exec S A E
pure a s = (ok a, s)

abbrev pub raise : {S A E : Type 0} → E → Exec S A E
raise e s = (err e, s)

abbrev pub lift : {S A E : Type 0} → Result A E → Exec S A E
lift r s = (r, s)

abbrev pub proceed : {S A B E : Type 0} → Result A E → (A → Exec S B E) → S → Result B E × S
proceed (ok a) f s = f a s
proceed (err e) f s = (err e, s)

infixl 5 ◌>>=◌ ◌>>◌
abbrev pub ◌>>=◌ : {S A B E : Type 0} → Exec S A E → (A → Exec S B E) → Exec S B E
◌>>=◌ m f s = let (r, s') = m s in proceed r f s'

abbrev pub ◌>>◌ : {S B E : Type 0} → Exec S (Unit {0}) E → Exec S B E → Exec S B E
m >> k = m >>= λ _. k
