-- ===== src/Prelude/Parse.antt =====
-- `str::parse` for `i64` and `bool`, and the order that `ORDER BY … DESC` puts rows in.
use Prim.Native.Nat.{ℕ, ◌+◌, ◌-◌, ◌*◌, ◌^◌}
use mathlib.Core.Bool.{Bool, true, false, ◌&&◌}
use mathlib.Core.List.{List, [], ◌∷◌}
use mathlib.Core.Option.{Option, none, some}
use portfolio_server.Prelude.Tests.{leb, ◌==◌, if◌then◌else◌}
use portfolio_server.Prelude.Strings.{Text, text, text_eq}
use portfolio_server.Prelude.Int.{ℤ, pos, negsuc}

-- Decimal digits behind a number that was read.
unfoldable pub read_digits : ℕ → Text → Option ℕ
read_digits n [] = some n
read_digits n (c ∷ s) =
    let rest = read_digits (n * 10 + (c - 48)) s in if leb 48 c && leb c 57 then rest else none

-- At least one digit, and no more than `n`.
abbrev pub read_number : ℕ → Text → Option ℕ
read_number most [] = none
read_number most (c ∷ s) = elim (read_digits 0 (c ∷ s)) [
  | none ↦ none
  | some n ↦ if leb n most then some n else none
]

abbrev pub negated : Option ℕ → Option ℤ
negated none = none
negated (some n) = if n == 0 then some (pos 0) else some (negsuc (n - 1))

abbrev pub positive : Option ℕ → Option ℤ
positive none = none
positive (some n) = some (pos n)

unfoldable pub parse_i64 : Text → Option ℤ
unfolding read_digits
parse_i64 [] = none
parse_i64 (c ∷ s) =
    if c == 0x2D
    then negated (read_number (2 ^ 63) s)
    else if c == 0x2B
    then positive (read_number (2 ^ 63 - 1) s)
    else positive (read_number (2 ^ 63 - 1) (c ∷ s))

unfoldable pub parse_bool : Text → Option Bool
unfolding text_eq
parse_bool s =
    if text_eq s (text "true")
    then some true
    else if text_eq s (text "false")
    then some false
    else none

module _ {A : Type 0} (key : A → ℕ) where
  unfoldable pub insert_desc : A → List A → List A
  insert_desc x [] = x ∷ []
  insert_desc x (y ∷ ys) =
      let rest = insert_desc x ys in if leb (key y) (key x) then x ∷ (y ∷ ys) else y ∷ rest

  -- Rows with equal keys come in the order of the table.
  unfoldable pub order_desc : List A → List A
  unfolding insert_desc
  order_desc [] = []
  order_desc (x ∷ xs) = insert_desc x (order_desc xs)
