-- ===== src/Contact/RateLimit.antt =====
-- The function `check_email_rate_limit` of migrations/20260206153053_add_email_rate_limiting.sql,
-- which src/routes/contact/post.rs calls.
use portfolio_server.Prelude.{
  ℕ, ◌+◌, ◌*◌, Text, Bool, true, false, ltb, leb, none, some, List, ◌∷◌, any, find?, update_where,
  text_eq, if◌then◌else◌,
}
use portfolio_server.Db.{RateLimitRow}

abbrev pub of_email : Text → RateLimitRow → Bool
of_email email row = text_eq row.email email

abbrev pub fresh : ℕ → Text → RateLimitRow
fresh now email = record {
  email = email;
  message_count = 1;
  window_start = now;
  last_message_at = now;
}

-- `INSERT … ON CONFLICT (email) DO UPDATE`
unfoldable pub open_window : ℕ → Text → List RateLimitRow → List RateLimitRow
open_window now email rows =
    if any (of_email email) rows
    then update_where (of_email email)
        (λ row. record row { message_count = 1; window_start = now; last_message_at = now }) rows
    else fresh now email ∷ rows

unfoldable pub count_message : ℕ → Text → List RateLimitRow → List RateLimitRow
count_message now email rows =
    update_where (of_email email)
      (λ row. record row { message_count = row.message_count + 1; last_message_at = now }) rows

-- The window of a row is over: `v_window_start < NOW() - (p_window_minutes || ' minutes')`.
abbrev pub is_over : ℕ → ℕ → RateLimitRow → Bool
is_over now window_minutes row = ltb (row.window_start + window_minutes * 60) now

unfoldable pub check_email_rate_limit :
    ℕ → Text → ℕ → ℕ → List RateLimitRow → Bool × List RateLimitRow
unfolding open_window count_message
check_email_rate_limit now email max_messages window_minutes rows =
    elim (find? (of_email email) rows) [
      | none ↦ (true, open_window now email rows)
      | some row ↦
          if is_over now window_minutes row
          then (true, open_window now email rows)
          else if leb max_messages row.message_count
          then (false, rows)
          else (true, count_message now email rows)
    ]
