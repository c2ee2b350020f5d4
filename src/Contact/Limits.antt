-- ===== src/Contact/Limits.antt =====
-- How many messages of one sender src/routes/contact/post.rs stores, over any requests that come one
-- after the other.
use portfolio_server.Contact.Windows.{Charged, check-Charged, check-other}
use portfolio_server.Idempotency.Outcome.{execute_idempotent-err, execute_idempotent-ok, claimed}
use portfolio_server.Errors.Web.{idempotency}
use portfolio_server.Contact.Outcome.{process_new_message-ok}
use portfolio_server.Idempotency.Execute.{execute_idempotent, operation_of}
use portfolio_server.Contact.Form.{MessageForm}
use portfolio_server.Http.{Request, Response}
use portfolio_server.Env.{Env}
use portfolio_server.Contact.Post.{MessageRateLimitSettings, post_message, process_new_message}
use portfolio_server.Prelude.{
  ℕ, ◌+◌, ◌-◌, ◌*◌, ◌≤◌, ◌≡◌, Text, Bool, List, [], ◌∷◌, All, find?, none, some, arith, refl, inl,
  inr, Option, true, text_eq, ◌⊎◌, count, Bool-cases, text_eq_iff, sym, ok, Result-cases, ap, ltb,
}
use portfolio_server.Db.{RateLimitRow, Db}
use portfolio_server.Contact.RateLimit.{of_email}

-- A request to the contact form, and what it meets.
pub record Sent : Type 0 where
  pub env : Env
  pub request : Request
  pub form : MessageForm

-- The tables after the requests, the first one first.
unfoldable pub post_all : MessageRateLimitSettings → List Sent → Db → Db
post_all config [] pool = pool
post_all config (s ∷ rest) pool =
    post_all config rest (post_message s.env s.request pool config s.form).1

-- The stored messages of a sender, and what the limiter knows of it.
abbrev pub stored_of : Text → Db → ℕ
stored_of email pool = count (λ row. text_eq row.email email) pool.messages

abbrev window_of : Text → Db → Option RateLimitRow
window_of email pool = find? (of_email email) pool.rate_limits

-- What one request does for a sender: nothing, or one message more, which is counted.
abbrev Single : ℕ → ℕ → ℕ → ℕ → Option RateLimitRow → ℕ → Option RateLimitRow → Type 0
Single m w now n o n' o' =
    ((n' ≡ n) × (o' ≡ o))
    ⊎ ((n' ≡ n + 1) × ((row' : RateLimitRow) × (o' ≡ some row') × Charged m w now o row'))

module _ (config : MessageRateLimitSettings) (email : Text) where
  stored_message :
      (env : Env) (form : MessageForm) (tx tx' : Db) (r : Response)
      → process_new_message env config form tx ≡ (ok r, tx')
      → Single config.max_messages config.window_minutes env.now
          (stored_of email tx)
          (window_of email tx)
          (stored_of email tx')
          (window_of email tx')
  stored_message env form tx tx' r e =
      let (v, valid, passed, fresh_one, rows, status, limits) =
        process_new_message-ok env config form tx tx' r e in
      rw (rows, limits)
        (elim (Bool-cases (text_eq v.email email)) [
          | inr other ↦ inl (
            rw other refl,
            check-other env.now config.max_messages config.window_minutes email v.email
                tx.rate_limits other,
          )
          | inl own ↦
              let same : v.email ≡ email = (text_eq_iff v.email email).0 own in
              inr (
                ground (arith, own),
                rw same (
                    check-Charged env.now config.max_messages config.window_minutes email
                      tx.rate_limits (rw same at passed)),
              )
        ])

  posted :
      (s : Sent) (pool : Db)
      → let after = (post_message s.env s.request pool config s.form).1 in
        Single config.max_messages config.window_minutes s.env.now
          (stored_of email pool)
          (window_of email pool)
          (stored_of email after)
          (window_of email after)
  unfolding post_message
  posted s pool =
      let action = process_new_message s.env config s.form in
      let out = execute_idempotent idempotency s.env s.request pool none action in
      elim (Result-cases out.0) [
        | inr (e, failed) ↦
            let same =
              execute_idempotent-err idempotency s.env s.request pool out.1 none action e
                (ap (λ x. (x, out.1)) failed) in
            inl (ap (stored_of email) same, ap (window_of email) same)
        | inl (r, answered) ↦
            let (key, valid, what) =
              execute_idempotent-ok idempotency s.env s.request pool out.1 none action r
                (ap (λ x. (x, out.1)) answered) in
            elim what [
              | inl was ↦
                  inl (ap (stored_of email) was.unchanged, ap (window_of email) was.unchanged)
              | inr was ↦ rw was.committed (
                  stored_message s.env s.form (claimed s.env pool key none (operation_of s.request))
                    was.tx was.answer was.ran)
            ]
      ]

  -- The sender's window is open, and no request is from after its end.
  stored_in_window :
      (sent : List Sent) (pool : Db) (row : RateLimitRow)
      → window_of email pool ≡ some row
      → All (λ s. s.env.now ≤ row.window_start + config.window_minutes * 60) sent
      → stored_of email (post_all config sent pool)
        ≤ stored_of email pool + (config.max_messages - row.message_count)
  unfolding post_all
  stored_in_window [] pool row here within = omega arith
  stored_in_window (s ∷ rest) pool row here (first, later) =
      let after = (post_message s.env s.request pool config s.form).1 in
      elim (rw here at (posted s pool)) [
        | inl (n, o) ↦ rw n at (stored_in_window rest after row o later)
        | inr (n, (row', there, inl (over, one, start))) ↦ ground (arith, over, first)
        | inr (n, (row', there, inr (runs, free, more, start))) ↦
            omega (
              arith,
              n,
              free,
              more,
              stored_in_window rest after row' there (rw (sym start) at later),
            )
      ]

  -- The sender has no window at a time, or one that is over.
  abbrev pub closed_at : ℕ → Option RateLimitRow → Bool
  closed_at t none = true
  closed_at t (some row) = ltb (row.window_start + config.window_minutes * 60) t

  -- Whatever requests come to the contact form one after the other, from whomever, within the length
  -- of a window: of one sender, at most the configured number of messages is stored by them, or one
  -- where that number is 0, if the sender's last window was over when they began.
  pub post_all-max_messages :
      (t : ℕ) (sent : List Sent) (pool : Db)
      → All (λ s. (t ≤ s.env.now) × (s.env.now ≤ t + config.window_minutes * 60)) sent
      → closed_at t (window_of email pool) ≡ true
      → stored_of email (post_all config sent pool)
        ≤ stored_of email pool + (1 + (config.max_messages - 1))
  unfolding post_all
  post_all-max_messages t [] pool within closed = omega arith
  post_all-max_messages t (s ∷ rest) pool ((from, to), later) closed =
      let after = (post_message s.env s.request pool config s.form).1 in
      elim (posted s pool) [
        | inl (n, o) ↦ rw n at (post_all-max_messages t rest after later (rw o closed))
        | inr (n, (row', there, charged)) ↦
            let (one, start) =
              opened_now t s.env.now (window_of email pool) row' from closed charged in
            let bound =
              stored_in_window rest after row' there
                (within_window t (s.env.now) row' start from rest later) in
            omega (arith, n, one, bound)
      ]
    where
      opened_now :
          (t now : ℕ) (o : Option RateLimitRow) (row' : RateLimitRow)
          → t ≤ now
          → closed_at t o ≡ true
          → Charged config.max_messages config.window_minutes now o row'
          → (row'.message_count ≡ 1) × (row'.window_start ≡ now)
      opened_now t now none row' from closed charged = charged
      opened_now t now (some row) row' from closed (inl (over, one, start)) = (one, start)
      opened_now t now (some row) row' from closed (inr (runs, free, more, start)) =
          ground (arith, closed, from, runs)

      within_window :
          (t now : ℕ) (row' : RateLimitRow)
          → row'.window_start ≡ now
          → t ≤ now
          → (rest : List Sent)
          → All (λ s. (t ≤ s.env.now) × (s.env.now ≤ t + config.window_minutes * 60)) rest
          → All (λ s. s.env.now ≤ row'.window_start + config.window_minutes * 60) rest
      within_window t now row' start from [] later = tt
      within_window t now row' start from (s ∷ rest) ((a, b), later) =
          (omega (arith, start, from, b), within_window t now row' start from rest later)
