-- ===== src/Idempotency/Outcome.antt =====
-- The cases of a request that went through the flow of src/idempotency/persistence.rs.
use portfolio_server.Prelude.{
  ℕ, ◌≡◌, Text, Bytes, true, false, Option, some, ◌∷◌, ok, err, any, arith, none, Result-cases, ◌⊎◌,
  Bool-cases, inl, inr, Result, map_err, refl,
}
use portfolio_server.Http.{Request, Response, bytes}
use portfolio_server.Errors.Idempotency.{IdempotencyError}
use portfolio_server.Env.{Env}
use portfolio_server.Db.{Db}
use portfolio_server.Idempotency.Key.{IdempotencyKey}
use portfolio_server.Idempotency.Store.{
  in_slot, get_saved_response, claim, stored, save_response, try_processing, NextAction,
  return_saved_response, start_processing,
}
use portfolio_server.Idempotency.Execute.{
  Action, execute_idempotent, get_idempotency_key, operation_of, proceed_with, finish_action,
}

-- A request that fails leaves the tables of the pool as they were.
pub execute_idempotent-err :
    {E : Type 0} (from : IdempotencyError → E) (env : Env) (request : Request) (pool after : Db)
    (user_id : Option ℕ) (action : Action E) (e : E)
    → execute_idempotent from env request pool user_id action ≡ (err e, after)
    → after ≡ pool
unfolding execute_idempotent save_response
execute_idempotent-err from env request pool after user_id action e h = ground arith

-- The tables that the action of a first request works on.
abbrev pub claimed : Env → Db → IdempotencyKey → Option ℕ → Text → Db
claimed env pool key u op = record pool { idempotency = claim env key u op ∷ pool.idempotency }

-- The slot was taken and its stored response came back.
pub record Replayed (env : Env) (pool after : Db) (key : IdempotencyKey) (u : Option ℕ) (op : Text)
    (r : Response) : Type 0 where
  pub taken : any (in_slot u key op) pool.idempotency ≡ true
  pub saved : get_saved_response env pool key u op ≡ ok (some r)
  pub unchanged : after ≡ pool

-- The slot was free, and the action ran once, in the transaction that also stored its response.
pub record Ran {E : Type 0} (env : Env) (pool after : Db) (key : IdempotencyKey) (u : Option ℕ)
    (op : Text) (action : Action E) (r : Response) : Type 0 where
  pub free : any (in_slot u key op) pool.idempotency ≡ false
  pub tx : Db
  pub answer : Response
  pub body : Bytes
  pub ran : action (claimed env pool key u op) ≡ (ok answer, tx)
  pub same : r ≡ record answer { body = bytes body }
  pub committed : after ≡ stored tx key u op answer body

module _ (env : Env) (pool after : Db) (key : IdempotencyKey) (u : Option ℕ) (op : Text) where
  -- A key is refused, claimed, or answered from the table.
  try_processing-cases :
      (next : NextAction × Option Db)
      → try_processing env pool key u op ≡ ok next
      → ((any (in_slot u key op) pool.idempotency ≡ true)
          × ((r : Response) × (next ≡ (return_saved_response r, none))
              × (get_saved_response env pool key u op ≡ ok (some r))))
        ⊎ ((any (in_slot u key op) pool.idempotency ≡ false)
            × (next ≡ (start_processing, some (claimed env pool key u op))))
  unfolding try_processing
  try_processing-cases next h = elim (Bool-cases (any (in_slot u key op) pool.idempotency)) [
    | inr free ↦ inr (free, ground arith)
    | inl taken ↦ elim (Result-cases (get_saved_response env pool key u op)) [
      | inr (e, failed) ↦ ground arith
      | inl (none, missing) ↦ ground arith
      | inl (some r, found) ↦ inl (taken, (r, ground arith, found))
    ]
  ]

  pub save_response-ok :
      (tx : Db) (answer r : Response)
      → save_response env pool tx key u op answer ≡ (ok r, after)
      → (b : Bytes) × (r ≡ record answer { body = bytes b }) × (after ≡ stored tx key u op answer b)
  unfolding save_response
  save_response-ok tx answer r h = elim (Result-cases (env.to_bytes answer.body)) [
    | inl (b, e) ↦ (b, ground arith, ground arith)
    | inr (x, e) ↦ ground arith
  ]

-- The result of a save, seen through the conversion of its error.
pub pair_of_map_err :
    {A E F S : Type 0} (f : E → F) (p : Result A E × S) (a : A) (s : S)
    → ◌≡◌ {A = Result A F × S} (map_err f p.0, p.1) (ok a, s)
    → p ≡ (ok a, s)
pair_of_map_err f (ok b, t) a s h = ground arith
pair_of_map_err f (err e, t) a s h = ground arith

module _ {E : Type 0} (from : IdempotencyError → E) (env : Env) (pool after : Db)
    (key : IdempotencyKey) (u : Option ℕ) (op : Text) (action : Action E) (r : Response) where
  finish_action-Ran :
      any (in_slot u key op) pool.idempotency ≡ false
      → (out : Result Response E × Db) → action (claimed env pool key u op) ≡ out
      → finish_action from env pool key u op out ≡ (ok r, after)
      → Ran env pool after key u op action r
  finish_action-Ran free (err e, tx) ran h = ground arith
  finish_action-Ran free (ok answer, tx) ran h =
      let (b, same, committed) =
        save_response-ok env pool after key u op tx answer r
          (pair_of_map_err from (save_response env pool tx key u op answer) r after h) in
      record {
        free = free;
        tx = tx;
        answer = answer;
        body = b;
        ran = ran;
        same = same;
        committed = committed;
      }

  proceed_with-ok :
      (next : NextAction × Option Db)
      → try_processing env pool key u op ≡ ok next
      → proceed_with from env pool key u op action next ≡ (ok r, after)
      → Replayed env pool after key u op r ⊎ Ran env pool after key u op action r
  proceed_with-ok next t h = elim (try_processing-cases env pool after key u op next t) [
    | inl (taken, (saved, e, found)) ↦
        inl (record { taken = taken; saved = ground arith; unchanged = ground arith })
    | inr (free, e) ↦ inr (finish_action-Ran free _ refl (rw e at h))
  ]

-- A request with an idempotency key that is answered had a valid key, and either replayed the
-- response that is stored for its key, operation and user, with no effect, or ran its action
-- exactly once in the transaction that stored the response.
pub execute_idempotent-ok :
    {E : Type 0} (from : IdempotencyError → E) (env : Env) (request : Request) (pool after : Db)
    (u : Option ℕ) (action : Action E) (r : Response)
    → execute_idempotent from env request pool u action ≡ (ok r, after)
    → (key : IdempotencyKey) × (get_idempotency_key env request ≡ ok key)
      × (Replayed env pool after key u (operation_of request) r
          ⊎ Ran env pool after key u (operation_of request) action r)
unfolding execute_idempotent
execute_idempotent-ok from env request pool after u action r h =
    elim (Result-cases (get_idempotency_key env request)) [
      | inr (e, bad) ↦ ground arith
      | inl (key, valid) ↦
          let op = operation_of request in
          elim (Result-cases (try_processing env pool key u op)) [
            | inr (e, refused) ↦ ground arith
            | inl (next, t) ↦ (
              key,
              valid,
              proceed_with-ok from env pool after key u op action r next t (ground arith),
            )
          ]
    ]
