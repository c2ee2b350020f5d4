-- ===== src/Idempotency/Table.antt =====
-- The committed table of keys of src/idempotency/persistence.rs over any sequence of requests.
use mathlib.Core.Path.{fun_ext}
use portfolio_server.Errors.Idempotency.{IdempotencyError, request_in_flight}
use portfolio_server.Idempotency.Slots.{
  in_slot-claim, in_slot_iff, in_slot-fill, status_from-cast_signed, Slot, slot_test,
}
use portfolio_server.Idempotency.Outcome.{Ran, execute_idempotent-ok, claimed}
use portfolio_server.Idempotency.Replay.{KeepsKeys, Ran-rows}
use portfolio_server.Idempotency.Execute.{Action, execute_idempotent, operation_of}
use portfolio_server.Prelude.{
  ℕ, ◌≤◌, ◌<◌, ◌≡◌, Text, Bytes, Bool, false, Option, some, List, [], ◌∷◌, ok, any, count, All,
  arith, true, Bool-cases, sym, ◌≢◌, inr, inl, ◌∙◌, err, find?, ◌&&◌, is_some, refl,
  update_where-none, count_of_any-false,
}
use portfolio_server.Http.{Headers, Response, Request, bytes}
use portfolio_server.Env.{Env}
use portfolio_server.Db.{IdempotencyRow, Db}
use portfolio_server.Idempotency.Key.{IdempotencyKey}
use portfolio_server.Idempotency.Store.{
  in_slot, cast_signed, claim, fill, try_processing, get_saved_response, row_response,
}

-- The row holds a response that can be rebuilt.
pub record IsAnswered (row : IdempotencyRow) : Type 0 where
  pub status : ℕ
  pub headers : Headers
  pub body : Bytes
  pub lowest : 100 ≤ status
  pub highest : status < 1000
  pub has_status : row.response_status_code ≡ some (cast_signed status)
  pub has_headers : row.response_headers ≡ some headers
  pub has_body : row.response_body ≡ some body

pub record IsConsistent (db : Db) : Type 0 where
  pub answered : All IsAnswered db.idempotency
  pub unique :
      (u : Option ℕ) (key : IdempotencyKey) (op : Text)
      → count (in_slot u key op) db.idempotency ≤ 1

-- The action answers with a status of HTTP's.
abbrev pub AnswersInRange : {E : Type 0} → Action E → Type 0
AnswersInRange action =
    (tx tx' : Db) (r : Response) → action tx ≡ (ok r, tx') → (100 ≤ r.status) × (r.status < 1000)

-- What a request that ran its action leaves in the table: one more row, with the response.
pub Ran-table :
    {E : Type 0} (env : Env) (pool after : Db) (key : IdempotencyKey) (u : Option ℕ) (op : Text)
    (action : Action E) (r : Response)
    → KeepsKeys action
    → (was : Ran env pool after key u op action r)
    → after.idempotency
      ≡ fill was.answer.status was.answer.headers was.body (claim env key u op) ∷ pool.idempotency
Ran-table env pool after key u op action r keeps was =
    rw (was.committed, Ran-rows env pool after key u op action r keeps was)
      (rw (
        in_slot-claim env u key op,
        update_where-none (in_slot u key op) (fill was.answer.status was.answer.headers was.body)
            pool.idempotency (count_of_any-false (in_slot u key op) pool.idempotency was.free),
      ))

-- A row stands in one slot only.
pub in_slot_unique :
    (u v : Option ℕ) (key key' : IdempotencyKey) (op op' : Text) (row : IdempotencyRow)
    → in_slot u key op row ≡ true
    → in_slot v key' op' row ≡ true
    → (key.value ≡ key'.value) × (op ≡ op') × (u ≡ v)
in_slot_unique u v key key' op op' row h k =
    let (a, b, c) = (in_slot_iff u key op row).0 h in
    let (a', b', c') = (in_slot_iff v key' op' row).0 k in (sym a ∙ a', sym b ∙ b', sym c ∙ c')

in_slot-eq :
    (u v : Option ℕ) (key key' : IdempotencyKey) (op op' : Text)
    → key.value ≡ key'.value
    → op ≡ op'
    → u ≡ v
    → in_slot v key' op' ≡ in_slot u key op
unfolding in_slot
in_slot-eq u v key key' op op' k o w = fun_ext λ row. cc

-- Two slots of one row are one slot.
pub slot_test-eq :
    (s t : Slot) (row : IdempotencyRow)
    → slot_test s row ≡ true
    → slot_test t row ≡ true
    → slot_test s ≡ slot_test t
slot_test-eq s t row mine yours =
    let (k, o, w) =
      in_slot_unique t.user_id s.user_id t.key s.key t.operation s.operation row yours mine in
    in_slot-eq t.user_id s.user_id t.key s.key t.operation s.operation k o w

count_unique :
    (u v : Option ℕ) (key key' : IdempotencyKey) (op op' : Text) (row : IdempotencyRow)
    (old : List IdempotencyRow)
    → in_slot u key op row ≡ true
    → any (in_slot u key op) old ≡ false
    → count (in_slot v key' op') old ≤ 1
    → count (in_slot v key' op') (row ∷ old) ≤ 1
count_unique u v key key' op op' row old mine free le = elim (Bool-cases (in_slot v key' op' row)) [
  | inr other ↦ rw other le
  | inl same ↦
      let (k, o, w) = in_slot_unique u v key key' op op' row mine same in
      let none_left : any (in_slot v key' op') old ≡ false =
        rw (in_slot-eq u v key key' op op' k o w) free in
      rw same (omega (arith, count_of_any-false (in_slot v key' op') old none_left))
]

filled-IsAnswered :
    (row : IdempotencyRow) (s : ℕ) (hs : Headers) (b : Bytes)
    → 100 ≤ s
    → s < 1000
    → IsAnswered (fill s hs b row)
filled-IsAnswered row s hs b lo hi = record {
  status = s;
  headers = hs;
  body = b;
  lowest = lo;
  highest = hi;
  has_status = refl;
  has_headers = refl;
  has_body = refl;
}

module _ {E : Type 0} (env : Env) (pool after : Db) (key : IdempotencyKey) (u : Option ℕ)
    (op : Text) (action : Action E) (r : Response) where
  Ran-IsConsistent :
      KeepsKeys action
      → AnswersInRange action
      → IsConsistent pool
      → Ran env pool after key u op action r
      → IsConsistent after
  Ran-IsConsistent keeps range c was =
      let table = Ran-table env pool after key u op action r keeps was in
      let (lo, hi) = range (claimed env pool key u op) was.tx was.answer was.ran in
      let row = fill was.answer.status was.answer.headers was.body (claim env key u op) in
      let mine : in_slot u key op row ≡ true =
        in_slot-fill u key op was.answer.status was.answer.headers was.body (claim env key u op)
        ∙ in_slot-claim env u key op in
      record {
        answered = rw table (
          filled-IsAnswered (claim env key u op) was.answer.status was.answer.headers was.body lo
              hi,
          c.answered,
        );
        unique = λ v key' op'. rw table (
            count_unique u v key key' op op' row pool.idempotency mine was.free
              (c.unique v key' op'));
      }

module _ {E : Type 0} (from : IdempotencyError → E) (env : Env) (request : Request)
    (pool after : Db) (u : Option ℕ) (action : Action E) (r : Response) where
  -- A request that is answered keeps the table consistent: each row has a response that can be
  -- replayed, and no user has two rows for one key and operation. The action leaves the table of
  -- keys alone and answers with a status of HTTP's.
  pub execute_idempotent-IsConsistent :
      execute_idempotent from env request pool u action ≡ (ok r, after)
      → KeepsKeys action
      → AnswersInRange action
      → IsConsistent pool
      → IsConsistent after
  execute_idempotent-IsConsistent h keeps range c =
      let (key, valid, what) = execute_idempotent-ok from env request pool after u action r h in
      elim what [
        | inl was ↦ rw was.unchanged c
        | inr was ↦
            Ran-IsConsistent env pool after key u (operation_of request) action r keeps range c was
      ]

row_response-IsAnswered :
    (row : IdempotencyRow)
    → IsAnswered row
    → (r : Response) × (row_response (some row) ≡ ok (some r))
row_response-IsAnswered row a = (
  record { status = a.status; headers = a.headers; body = bytes a.body },
  ground (arith, status_from-cast_signed a.status a.lowest a.highest),
)

find?-IsAnswered :
    (p : IdempotencyRow → Bool) (rows : List IdempotencyRow)
    → All IsAnswered rows
    → any p rows ≡ true
    → (row : IdempotencyRow) × (find? (λ x. p x && is_some x.response_status_code) rows ≡ some row)
      × IsAnswered row
find?-IsAnswered p [] a h = cc
find?-IsAnswered p (row ∷ rows) (a, as') h = elim (Bool-cases (p row)) [
  | inl yes' ↦ (row, rw (yes', a.has_status), a)
  | inr no' ↦ let (found, e, b) = find?-IsAnswered p rows as' (rw no' at h) in (found, rw no' e, b)
]

-- While the table is consistent no request is told that another one is in flight.
pub try_processing-ne-in_flight :
    (env : Env) (pool : Db) (key : IdempotencyKey) (u : Option ℕ) (op : Text)
    → IsConsistent pool
    → try_processing env pool key u op ≢ err request_in_flight
unfolding try_processing get_saved_response
try_processing-ne-in_flight env pool key u op c h =
    elim (Bool-cases (any (in_slot u key op) pool.idempotency)) [
      | inr free ↦ ground arith
      | inl taken ↦
          let (row, e, a) = find?-IsAnswered (in_slot u key op) pool.idempotency c.answered taken in
          let (r, readable) = row_response-IsAnswered row a in ground arith
    ]
