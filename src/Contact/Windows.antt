-- ===== src/Contact/Windows.antt =====
-- How `check_email_rate_limit` counts a message of one sender, and leaves the other senders.
use portfolio_server.Prelude.{
  ℕ, ◌+◌, ◌≡◌, Text, Bool, false, List, [], ◌∷◌, find?, none, some, text_eq_refl, arith, refl, any,
  Option-cases, inl, is_some, inr, find?-update_same, Option, true, text_eq, ◌⊎◌, Bool-cases,
  update_where, text_eq_iff, ◌<◌, leb,
}
use portfolio_server.Db.{RateLimitRow}
use portfolio_server.Contact.RateLimit.{
  check_email_rate_limit, of_email, open_window, count_message, is_over, fresh,
}

any_of_find? {ℓ} : {A : Type ℓ} (p : A → Bool) (xs : List A) → any p xs ≡ is_some (find? p xs)
any_of_find? p [] = refl
any_of_find? p (x ∷ xs) = ground (arith, any_of_find? p xs)

find?-update_other :
    {A : Type 0} (p q : A → Bool) (f : A → A) (xs : List A)
    → ((x : A) → q (f x) ≡ q x)
    → ((x : A) → q x ≡ true → p x ≡ false)
    → find? q (update_where p f xs) ≡ find? q xs
find?-update_other p q f [] same apart = refl
find?-update_other p q f (x ∷ xs) same apart = elim (Bool-cases (q x)) [
  | inl here ↦ ground (arith, here, apart x here)
  | inr not_here ↦ ground (arith, not_here, same x, find?-update_other p q f xs same apart)
]

open_window-find? :
    (now : ℕ) (email : Text) (rows : List RateLimitRow)
    → (row : RateLimitRow) × (find? (of_email email) (open_window now email rows) ≡ some row)
      × (row.message_count ≡ 1)
      × (row.window_start ≡ now)
unfolding open_window
open_window-find? now email rows = elim (Option-cases (find? (of_email email) rows)) [
  | inl none_yet ↦
      rw (any_of_find? (of_email email) rows, none_yet, open_window)
        (fresh now email, rw (text_eq_refl email) refl, refl, refl)
  | inr (row, here) ↦
      rw (any_of_find? (of_email email) rows, here, open_window)
        (
          record row { message_count = 1; window_start = now; last_message_at = now },
          find?-update_same (of_email email)
              (λ r. record r { message_count = 1; window_start = now; last_message_at = now }) rows
              row (λ r. refl) here,
          refl,
          refl,
        )
]

-- How a message that is let through is counted: in a new window, or in the one that is open.
abbrev pub Charged : ℕ → ℕ → ℕ → Option RateLimitRow → RateLimitRow → Type 0
Charged m w now none row' = (row'.message_count ≡ 1) × (row'.window_start ≡ now)
Charged m w now (some row) row' =
    ((is_over now w row ≡ true) × (row'.message_count ≡ 1) × (row'.window_start ≡ now))
    ⊎ ((is_over now w row ≡ false)
        × (row.message_count < m)
        × (row'.message_count ≡ row.message_count + 1)
        × (row'.window_start ≡ row.window_start))

pub check-Charged :
    (now m w : ℕ) (email : Text) (rows : List RateLimitRow)
    → (check_email_rate_limit now email m w rows).0 ≡ true
    → (row' : RateLimitRow) × (find? (of_email email) (check_email_rate_limit now email m w rows).1
        ≡ some row')
      × Charged m w now (find? (of_email email) rows) row'
unfolding check_email_rate_limit count_message
check-Charged now m w email rows passed =
    let (opened, there, one, start) = open_window-find? now email rows in
    elim (Option-cases (find? (of_email email) rows)) [
      | inl none_yet ↦ rw (none_yet, check_email_rate_limit) (opened, there, (one, start))
      | inr (row, here) ↦ elim (Bool-cases (is_over now w row)) [
        | inl over ↦ rw (here, over, check_email_rate_limit) (opened, there, inl (refl, one, start))
        | inr runs ↦ elim (Bool-cases (leb m row.message_count)) [
          | inl full ↦ ground (arith, here, runs, full, passed)
          | inr free ↦
              rw (here, runs, free, check_email_rate_limit)
                (
                  record row { message_count = row.message_count + 1; last_message_at = now },
                  find?-update_same (of_email email)
                      (λ r. record r { message_count = r.message_count + 1; last_message_at = now })
                      rows row (λ r. refl) here,
                  inr (refl, ground (arith, free), refl, refl),
                )
        ]
      ]
    ]

-- The limiter's row of another sender.
pub check-other :
    (now m w : ℕ) (email other : Text) (rows : List RateLimitRow)
    → text_eq other email ≡ false
    → find? (of_email email) (check_email_rate_limit now other m w rows).1
      ≡ find? (of_email email) rows
unfolding check_email_rate_limit count_message open_window
check-other now m w email other rows apart =
    let differ : (row : RateLimitRow) → of_email email row ≡ true → of_email other row ≡ false =
      λ row is. of_other email other row apart is in
    let reset =
      find?-update_other (of_email other) (of_email email)
        (λ r. record r { message_count = 1; window_start = now; last_message_at = now }) rows
        (λ r. refl) differ in
    let more =
      find?-update_other (of_email other) (of_email email)
        (λ r. record r { message_count = r.message_count + 1; last_message_at = now }) rows
        (λ r. refl) differ in
    elim (Option-cases (find? (of_email other) rows)) [
      | inl none_yet ↦ ground (arith, none_yet, reset, apart)
      | inr (row, here) ↦ ground (arith, here, reset, more, apart)
    ]
  where
    of_other :
        (email other : Text) (row : RateLimitRow)
        → text_eq other email ≡ false
        → of_email email row ≡ true
        → of_email other row ≡ false
    of_other email other row apart is = elim (Bool-cases (text_eq row.email other)) [
      | inr differ ↦ differ
      | inl equal ↦
          let e : row.email ≡ other = (text_eq_iff row.email other).0 equal in
          ground (arith, apart, rw e at is)
    ]
