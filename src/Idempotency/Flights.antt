-- ===== src/Idempotency/Flights.antt =====
-- src/idempotency/persistence.rs with several requests in flight: the statements of their
-- transactions interleave. An `INSERT … ON CONFLICT DO NOTHING` waits while another open transaction
-- has a row in its slot, and what a transaction wrote is seen by the others after its commit.
pub mod Once
mod Added
pub mod Alone
pub mod Answers
use portfolio_server.Errors.Sql.{Anyhow, SqlError}
use portfolio_server.Errors.Idempotency.{IdempotencyError, database_error}
use portfolio_server.Errors.Web.{WebError, idempotency}
use portfolio_server.Http.{Response}
use portfolio_server.Idempotency.Table.{IsConsistent}
use portfolio_server.Prelude.{
  Bool, ℕ, Result, true, all, false, suc, List, ◌++◌, Option, ◌≡◌, [], none, ◌∷◌, count, any, ◌⊎◌,
  some, ok, err, ◌≤◌, ◌<◌,
}
use portfolio_server.Env.{Env, begin, claim_key, Query}
use portfolio_server.Db.{IdempotencyRow, Db}
use portfolio_server.Idempotency.Slots.{Slot, slot_test}
use portfolio_server.Idempotency.Store.{
  claim, save_response, get_saved_response, saved_or_in_flight, return_saved_response,
}

-- A request, as the flow sees it.
pub record Flight : Type 0 where
  pub env : Env
  pub slot : Slot

-- Before `try_processing`; in it, with a row that another request committed; in its own transaction,
-- from the claim to the commit; and after the flow.
pub data Phase : Type 0 where
  starting reading holding : Phase
  answered : Response → Phase
  failed : WebError → Phase

abbrev pub Worker : Type 0
Worker = Flight × Phase

-- The row that the transaction of a request in `holding` has inserted.
abbrev pub claim_of : Flight → IdempotencyRow
claim_of f = claim f.env f.slot.key f.slot.user_id f.slot.operation

-- A request whose open transaction has a row that passes a test, and one with a row in a slot.
abbrev pub holds_row : (IdempotencyRow → Bool) → Worker → Bool
holds_row test (f, holding) = test (claim_of f)
holds_row test (f, _) = false

abbrev pub holds : Slot → Worker → Bool
holds s w = holds_row (slot_test s) w

-- The committed tables, the requests in flight, and those whose action was committed.
pub record State : Type 0 where
  pub pool : Db
  pub workers : List Worker
  pub log : List Flight

abbrev pub at : Db → List Flight → List Worker → Worker → List Worker → State
at pool log before w after = record { pool = pool; log = log; workers = before ++ (w ∷ after) }

abbrev pub saved : Flight → Db → Result (Option Response) Anyhow
saved f pool = get_saved_response f.env pool f.slot.key f.slot.user_id f.slot.operation

-- What the save step does with the answer `r` of the action and the tables of its transaction.
abbrev pub save : Flight → Db → Db → Response → Result Response IdempotencyError × Db
save f pool tx r = save_response f.env pool tx f.slot.key f.slot.user_id f.slot.operation r

-- One statement, or one action, of the request `f` among all `workers`: its phase before and after,
-- and the tables and the log afterwards. The action may write anything to the other tables.
pub data Advance (workers : List Worker) (f : Flight) (pool : Db) (log : List Flight)
    : Phase → Phase → Db → List Flight → Type 0 where
  claims :
      f.env.fault begin ≡ none
      → f.env.fault claim_key ≡ none
      → count (holds f.slot) workers ≡ 0
      → any (slot_test f.slot) pool.idempotency ≡ false
      → Advance workers f pool log starting holding pool log
  conflicts :
      f.env.fault begin ≡ none
      → f.env.fault claim_key ≡ none
      → count (holds f.slot) workers ≡ 0
      → any (slot_test f.slot) pool.idempotency ≡ true
      → Advance workers f pool log starting reading pool log
  refused :
      (q : Query) (e : SqlError)
      → (q ≡ begin) ⊎ (q ≡ claim_key)
      → f.env.fault q ≡ some e
      → Advance workers f pool log starting (failed (idempotency (database_error e))) pool log
  replays :
      (r : Response)
      → saved_or_in_flight (saved f pool) ≡ ok (return_saved_response r, none)
      → Advance workers f pool log reading (answered r) pool log
  misses :
      (e : IdempotencyError)
      → saved_or_in_flight (saved f pool) ≡ err e
      → Advance workers f pool log reading (failed (idempotency e)) pool log
  commits :
      {pool' : Db} (tx : Db) (r answer : Response)
      → tx.idempotency ≡ claim_of f ∷ pool.idempotency
      → 100 ≤ r.status
      → r.status < 1000
      → save f pool tx r ≡ (ok answer, pool')
      → Advance workers f pool log holding (answered answer) pool' (f ∷ log)
  aborts : (e : WebError) → Advance workers f pool log holding (failed e) pool log

-- One request moves; the others stay as they are.
pub data Step : State → State → Type 0 where
  step :
      {pool pool' : Db} {log log' : List Flight} {p q : Phase} (before after : List Worker)
      (f : Flight)
      → Advance (before ++ ((f, p) ∷ after)) f pool log p q pool' log'
      → Step (at pool log before (f, p) after) (at pool' log' before (f, q) after)

-- A schedule of so many steps.
pub data Steps (start : State) : ℕ → State → Type 0 where
  none_yet : Steps start 0 start
  then :
      {n : ℕ} {state next : State}
      → Steps start n state
      → Step state next
      → Steps start (suc n) next

abbrev pub is_starting : Worker → Bool
is_starting (f, starting) = true
is_starting (f, _) = false

-- The requests arrive at a consistent table.
pub record IsStart (state : State) : Type 0 where
  pub consistent : IsConsistent state.pool
  pub fresh : all is_starting state.workers ≡ true
  pub no_log : state.log ≡ []
