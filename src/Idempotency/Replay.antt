-- ===== src/Idempotency/Replay.antt =====
-- src/idempotency/persistence.rs for a request that is sent again.
use portfolio_server.Idempotency.Outcome.{execute_idempotent-ok, Ran, claimed}
use portfolio_server.Idempotency.Execute.{
  Action, execute_idempotent, get_idempotency_key, operation_of,
}
use portfolio_server.Errors.Idempotency.{IdempotencyError}
use portfolio_server.Prelude.{
  ℕ, ◌≤◌, ◌<◌, ◌≡◌, Text, Bytes, true, Option, none, some, List, ◌∷◌, ok, any, arith, inl, inr,
}
use portfolio_server.Http.{Response, bytes, Request}
use portfolio_server.Env.{Env, select_saved, begin, claim_key}
use portfolio_server.Db.{IdempotencyRow, Db}
use portfolio_server.Idempotency.Key.{IdempotencyKey}
use portfolio_server.Idempotency.Store.{
  in_slot, get_saved_response, claim, stored, try_processing, return_saved_response,
}
use portfolio_server.Idempotency.Slots.{in_slot-claim, in_slot-fill, status_from-cast_signed}

module _ (env : Env) (u : Option ℕ) (key : IdempotencyKey) (op : Text) where
  -- A slot is taken once the claim was filled in.
  any-stored :
      (tx : Db) (old : List IdempotencyRow) (r : Response) (b : Bytes)
      → tx.idempotency ≡ claim env key u op ∷ old
      → any (in_slot u key op) (stored tx key u op r b).idempotency ≡ true
  any-stored tx old r b e = rw e (
      ground (
        arith,
        in_slot-claim env u key op,
        in_slot-fill u key op r.status r.headers b (claim env key u op),
      ))

  get_saved_response-stored :
      (env' : Env) (tx : Db) (old : List IdempotencyRow) (r : Response) (b : Bytes)
      → env'.fault select_saved ≡ none
      → tx.idempotency ≡ claim env key u op ∷ old
      → 100 ≤ r.status
      → r.status < 1000
      → get_saved_response env' (stored tx key u op r b) key u op
        ≡ ok (some (record r { body = bytes b }))
  unfolding get_saved_response
  get_saved_response-stored env' tx old r b nf e lo hi = ground (
    arith,
    in_slot-claim env u key op,
    in_slot-fill u key op r.status r.headers b (claim env key u op),
    status_from-cast_signed r.status lo hi,
  )

-- The statements of a replay reach the database.
pub record IsUp (env : Env) : Type 0 where
  pub begins : env.fault begin ≡ none
  pub claims : env.fault claim_key ≡ none
  pub selects : env.fault select_saved ≡ none

-- The action leaves the table of keys alone.
abbrev pub KeepsKeys : {E : Type 0} → Action E → Type 0
KeepsKeys action = (tx : Db) → (action tx).1.idempotency ≡ tx.idempotency

pub Ran-rows :
    {E : Type 0} (env : Env) (pool after : Db) (key : IdempotencyKey) (u : Option ℕ) (op : Text)
    (action : Action E) (r : Response)
    → KeepsKeys action
    → (was : Ran env pool after key u op action r)
    → was.tx.idempotency ≡ claim env key u op ∷ pool.idempotency
Ran-rows env pool after key u op action r keeps was =
    rw was.ran at (keeps (claimed env pool key u op))

same_key :
    (env env' : Env) (request : Request)
    → env'.to_str ≡ env.to_str
    → get_idempotency_key env' request ≡ get_idempotency_key env request
unfolding get_idempotency_key
same_key env env' request reads = rw reads

same_saved :
    (env env' : Env) (db : Db) (key : IdempotencyKey) (u : Option ℕ) (op : Text) (r : Response)
    → env'.fault select_saved ≡ none
    → get_saved_response env db key u op ≡ ok (some r)
    → get_saved_response env' db key u op ≡ ok (some r)
unfolding get_saved_response
same_saved env env' db key u op r up found = ground arith

try_processing-taken :
    (env : Env) (db : Db) (key : IdempotencyKey) (u : Option ℕ) (op : Text) (r : Response)
    → IsUp env
    → any (in_slot u key op) db.idempotency ≡ true
    → get_saved_response env db key u op ≡ ok (some r)
    → try_processing env db key u op ≡ ok (return_saved_response r, none)
unfolding try_processing
try_processing-taken env db key u op r up taken found = ground arith

module _ {E : Type 0} (from : IdempotencyError → E) (env env' : Env) (request : Request)
    (after : Db) (u : Option ℕ) (action' : Action E) (r : Response) (key : IdempotencyKey) where
  answer_from_table :
      get_idempotency_key env request ≡ ok key
      → env'.to_str ≡ env.to_str
      → IsUp env'
      → any (in_slot u key (operation_of request)) after.idempotency ≡ true
      → get_saved_response env' after key u (operation_of request) ≡ ok (some r)
      → execute_idempotent from env' request after u action' ≡ (ok r, after)
  unfolding execute_idempotent
  answer_from_table valid reads up taken found = ground (
    arith,
    same_key env env' request reads,
    try_processing-taken env' after key u (operation_of request) r up taken found,
  )

module _ {E : Type 0} (from : IdempotencyError → E) (env env' : Env) (request : Request)
    (pool after : Db) (u : Option ℕ) (action action' : Action E) (r : Response) where
  -- Once a request with an idempotency key was answered, the same request, sent again by the same
  -- user, gets exactly the same response and changes nothing, whatever action it would run: the
  -- action of the first one leaves the table of keys alone, the status is one of HTTP's, and the
  -- statements of the second one reach the database.
  pub execute_idempotent-replay :
      execute_idempotent from env request pool u action ≡ (ok r, after)
      → KeepsKeys action
      → 100 ≤ r.status
      → r.status < 1000
      → env'.to_str ≡ env.to_str
      → IsUp env'
      → execute_idempotent from env' request after u action' ≡ (ok r, after)
  execute_idempotent-replay first keeps lo hi reads up =
      let op = operation_of request in
      let (key, valid, what) = execute_idempotent-ok from env request pool after u action r first in
      elim what [
        | inl was ↦
            answer_from_table from env env' request after u action' r key valid reads up
              (rw was.unchanged was.taken)
              (rw was.unchanged (same_saved env env' pool key u op r up.selects was.saved))
        | inr was ↦
            let rows = Ran-rows env pool after key u op action r keeps was in
            answer_from_table from env env' request after u action' r key valid reads up
              (rw was.committed
                (any-stored env u key op was.tx pool.idempotency was.answer was.body rows))
              (rw (was.committed, was.same)
                (get_saved_response-stored env u key op env' was.tx pool.idempotency was.answer
                  was.body up.selects rows (ground arith) (ground arith)))
      ]
