-- ===== src/Idempotency/Slots.antt =====
-- Slots of the table `idempotency`: when two requests share one, and what storing a response does
-- to the rows of its own slot and of the others.
use portfolio_server.Prelude.{
  ℕ, ◌≤◌, ◌<◌, ◌≡◌, ◌↔◌, refl, Text, Bytes, Bool, true, Option, ok, text_eq_iff, option_eq_iff,
  arith,
}
use portfolio_server.Http.{Headers}
use portfolio_server.Env.{Env}
use portfolio_server.Db.{IdempotencyRow}
use portfolio_server.Idempotency.Key.{IdempotencyKey, as_ref}
use portfolio_server.Idempotency.Store.{in_slot, cast_signed, status_from, claim, fill}

-- A caller's slot in the table: who asks, under which key, for which operation.
pub record Slot : Type 0 where
  pub user_id : Option ℕ
  pub key : IdempotencyKey
  pub operation : Text

abbrev pub slot_test : Slot → IdempotencyRow → Bool
slot_test s row = in_slot s.user_id s.key s.operation row

pub in_slot_iff :
    (u : Option ℕ) (key : IdempotencyKey) (op : Text) (row : IdempotencyRow)
    → (in_slot u key op row ≡ true)
      ↔ ((row.idempotency_key ≡ as_ref key) × (row.operation ≡ op) × (row.user_id ≡ u))
unfolding in_slot
in_slot_iff u key op row = ground (
  arith,
  text_eq_iff row.idempotency_key (as_ref key),
  text_eq_iff row.operation op,
  option_eq_iff row.user_id u,
)

pub in_slot-claim :
    (env : Env) (u : Option ℕ) (key : IdempotencyKey) (op : Text)
    → in_slot u key op (claim env key u op) ≡ true
in_slot-claim env u key op = (in_slot_iff u key op (claim env key u op)).1 (refl, refl, refl)

-- Filling in a response moves no row to another slot.
pub in_slot-fill :
    (u : Option ℕ) (key : IdempotencyKey) (op : Text) (s : ℕ) (hs : Headers) (b : Bytes)
    (row : IdempotencyRow)
    → in_slot u key op (fill s hs b row) ≡ in_slot u key op row
unfolding in_slot
in_slot-fill u key op s hs b row = refl

-- A status of a response survives the column of type SMALLINT.
pub status_from-cast_signed : (s : ℕ) → 100 ≤ s → s < 1000 → status_from (cast_signed s) ≡ ok s
unfolding status_from cast_signed
status_from-cast_signed s lo hi = ground arith
