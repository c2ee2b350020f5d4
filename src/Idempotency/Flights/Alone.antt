-- ===== src/Idempotency/Flights/Alone.antt =====
-- The flow of src/idempotency/persistence.rs for one request, seen as a schedule of its statements.
use portfolio_server.Idempotency.Slots.{slot_test}
use portfolio_server.Idempotency.Table.{AnswersInRange}
use portfolio_server.Idempotency.Replay.{KeepsKeys}
use portfolio_server.Idempotency.Store.{
  try_processing, in_slot, saved_or_in_flight, return_saved_response,
}
use portfolio_server.Errors.Web.{WebError, idempotency}
use portfolio_server.Idempotency.Key.{IdempotencyKey}
use portfolio_server.Prelude.{
  Option, ℕ, Text, ◌∷◌, List, ◌≡◌, ok, [], any, none, Option-cases, true, false, inl, inr, arith,
  Result-cases, Result, sym, err, ◌∙◌, some, refl, Bool-cases, subst, ap,
}
use portfolio_server.Http.{Request, Response}
use portfolio_server.Db.{Db}
use portfolio_server.Env.{Env, claim_key, begin}
use portfolio_server.Idempotency.Flights.{
  Flight, State, Steps, none_yet, then, step, claims, conflicts, replays, commits, starting,
  answered, save, saved,
}
use portfolio_server.Idempotency.Execute.{
  Action, execute_idempotent, execute_idempotent_with, get_idempotency_key, operation_of,
  finish_action,
}
use portfolio_server.Idempotency.Outcome.{pair_of_map_err, claimed}

abbrev pub flight : Env → Option ℕ → IdempotencyKey → Text → Flight
flight env u key op = record { env = env; slot = record { user_id = u; key = key; operation = op } }

abbrev pub before : Env → Db → Option ℕ → IdempotencyKey → Text → State
before env pool u key op = record {
  pool = pool;
  workers = (flight env u key op, starting) ∷ [];
  log = [];
}

abbrev pub afterwards : Env → Db → Option ℕ → IdempotencyKey → Text → Response → List Flight → State
afterwards env after u key op r log = record {
  pool = after;
  workers = (flight env u key op, answered r) ∷ [];
  log = log;
}

module _ (env : Env) (request : Request) (pool after : Db) (u : Option ℕ) (action : Action WebError)
    (r : Response) (key : IdempotencyKey) (valid : get_idempotency_key env request ≡ ok key)
    (h : execute_idempotent idempotency env request pool u action ≡ (ok r, after)) where
  abbrev op : Text
  op = operation_of request

  begins : env.fault begin ≡ none
  unfolding execute_idempotent execute_idempotent_with try_processing
  begins = elim (Option-cases (env.fault begin)) [
    | inl up ↦ up
    | inr (e, down) ↦ ground (arith, valid, down, h)
  ]

  sends_claim : env.fault claim_key ≡ none
  unfolding execute_idempotent execute_idempotent_with try_processing
  sends_claim = elim (Option-cases (env.fault claim_key)) [
    | inl up ↦ up
    | inr (e, down) ↦ ground (arith, valid, begins, down, h)
  ]

  -- The slot is free: the action runs, and its answer is saved.
  finished :
      any (in_slot u key op) pool.idempotency ≡ false
      → finish_action idempotency env pool key u op (action (claimed env pool key u op))
        ≡ (ok r, after)
  unfolding execute_idempotent execute_idempotent_with try_processing
  finished free =
      let whole : execute_idempotent idempotency env request pool u action
          ≡ finish_action idempotency env pool key u op (action (claimed env pool key u op)) =
        rw
          (
            valid, begins, sends_claim, free, execute_idempotent, execute_idempotent_with,
            try_processing,
          )
          refl in
      sym whole ∙ h

  -- The slot is taken: the stored response comes back.
  replayed :
      any (in_slot u key op) pool.idempotency ≡ true
      → (saved_or_in_flight (saved (flight env u key op) pool) ≡ ok (return_saved_response r, none))
        × (after ≡ pool)
  unfolding execute_idempotent execute_idempotent_with try_processing
  replayed taken = elim (Result-cases (saved (flight env u key op) pool)) [
    | inr (e, lost) ↦ ground (arith, valid, begins, sends_claim, taken, lost, h)
    | inl (none, nothing) ↦ ground (arith, valid, begins, sends_claim, taken, nothing, h)
    | inl (some r', found) ↦ (
      ground (arith, valid, begins, sends_claim, taken, found, h),
      ground (arith, valid, begins, sends_claim, taken, found, h),
    )
  ]

  -- From the answer of the action to its commit.
  saved_answer :
      (out : Result Response WebError × Db)
      → finish_action idempotency env pool key u op out ≡ (ok r, after)
      → (answer : Response) × (out.0 ≡ ok answer)
        × (save (flight env u key op) pool out.1 answer ≡ (ok r, after))
  saved_answer (err e, tx) done = ground arith
  saved_answer (ok answer, tx) done = (
    answer,
    refl,
    pair_of_map_err idempotency (save (flight env u key op) pool tx answer) r after done,
  )

-- A request that is answered is, where no other is in flight, a schedule of two steps: it claims its
-- slot and commits, or meets a row and gets its response. Its action leaves the table of keys alone
-- and answers with a status of HTTP's.
pub execute_idempotent-Steps :
    (env : Env) (request : Request) (pool after : Db) (u : Option ℕ) (action : Action WebError)
    (r : Response) (key : IdempotencyKey)
    → get_idempotency_key env request ≡ ok key
    → execute_idempotent idempotency env request pool u action ≡ (ok r, after)
    → KeepsKeys action
    → AnswersInRange action
    → (log : List Flight) × Steps
        (before env pool u key (operation_of request))
        2
        (afterwards env after u key (operation_of request) r log)
execute_idempotent-Steps env request pool after u action r key valid h keeps range =
    let f = flight env u key (operation_of request) in
    let up = begins env request pool after u action r key valid h in
    let up' = sends_claim env request pool after u action r key valid h in
    elim (Bool-cases (any (slot_test f.slot) pool.idempotency)) [
      | inl taken ↦
          let (found, same) = replayed env request pool after u action r key valid h taken in
          (
            [],
            subst
                (λ db.
                  Steps (before env pool u key (operation_of request)) 2
                    (afterwards env db u key (operation_of request) r []))
                (sym same)
                (then (then none_yet (step [] [] f (conflicts up up' refl taken)))
                  (step [] [] f (replays r found))),
          )
      | inr free ↦
          let tx = claimed env pool key u (operation_of request) in
          let out = action tx in
          let (answer, is, committed) =
            saved_answer env request pool after u action r key valid h out
              (finished env request pool after u action r key valid h free) in
          let (low, high) = range tx out.1 answer (ap (λ x. (x, out.1)) is) in
          (
            f ∷ [],
            then (then none_yet (step [] [] f (claims up up' refl free)))
                (step [] [] f (commits out.1 answer r (keeps tx) low high committed)),
          )
    ]
