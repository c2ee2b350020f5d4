-- ===== src/Idempotency/Isolation.antt =====
-- The slots of other requests under src/idempotency/persistence.rs.
use portfolio_server.Idempotency.Table.{in_slot_unique, Ran-table}
use mathlib.Core.Path.{subst}
use portfolio_server.Errors.Idempotency.{IdempotencyError}
use portfolio_server.Idempotency.Slots.{in_slot-claim, in_slot-fill}
use portfolio_server.Idempotency.Outcome.{Ran, execute_idempotent-ok}
use portfolio_server.Idempotency.Replay.{KeepsKeys}
use portfolio_server.Idempotency.Execute.{
  Action, execute_idempotent, operation_of, get_idempotency_key,
}
use portfolio_server.Prelude.{ℕ, ◌≡◌, Text, Option, ok, true, Bool-cases, inr, inl, ◌∙◌}
use portfolio_server.Http.{Response, Request}
use portfolio_server.Env.{Env}
use portfolio_server.Db.{Db}
use portfolio_server.Idempotency.Key.{IdempotencyKey}
use portfolio_server.Idempotency.Store.{in_slot, claim, fill, get_saved_response}

module _ {E : Type 0} (from : IdempotencyError → E) (env env' : Env) (request : Request)
    (pool after : Db) (u v : Option ℕ) (action : Action E) (r : Response)
    (key key' : IdempotencyKey) (op' : Text) where
  get_saved_response-Ran :
      KeepsKeys action
      → ¬ ((key.value ≡ key'.value) × (operation_of request ≡ op') × (u ≡ v))
      → Ran env pool after key u (operation_of request) action r
      → get_saved_response env' after key' v op' ≡ get_saved_response env' pool key' v op'
  unfolding get_saved_response
  get_saved_response-Ran keeps other was =
      let op = operation_of request in
      let row = fill was.answer.status was.answer.headers was.body (claim env key u op) in
      let mine : in_slot u key op row ≡ true =
        in_slot-fill u key op was.answer.status was.answer.headers was.body (claim env key u op)
        ∙ in_slot-claim env u key op in
      elim (Bool-cases (in_slot v key' op' row)) [
        | inl same ↦ absurd (other (in_slot_unique u v key key' op op' row mine same))
        | inr apart ↦ rw (Ran-table env pool after key u op action r keeps was) (rw apart)
      ]

  -- A request that is answered leaves the stored response of every other key, operation or user
  -- as it was, so a response is never replayed to another user or for another operation.
  pub execute_idempotent-other_slot :
      execute_idempotent from env request pool u action ≡ (ok r, after)
      → get_idempotency_key env request ≡ ok key
      → KeepsKeys action
      → ¬ ((key.value ≡ key'.value) × (operation_of request ≡ op') × (u ≡ v))
      → get_saved_response env' after key' v op' ≡ get_saved_response env' pool key' v op'
  execute_idempotent-other_slot h valid keeps other =
      let (k, valid', what) = execute_idempotent-ok from env request pool after u action r h in
      let same : k ≡ key = cc in
      elim what [
        | inl was ↦ rw was.unchanged
        | inr was ↦
            get_saved_response-Ran keeps other
              (subst (λ x. Ran env pool after x u (operation_of request) action r) same was)
      ]
