-- ===== src/Idempotency/Flights/Added.antt =====
-- What a commit adds to the table of keys, and what is read back from it.
use portfolio_server.Idempotency.Outcome.{save_response-ok}
use portfolio_server.Http.{Response, Headers, bytes}
use portfolio_server.Db.{Db, IdempotencyRow}
use portfolio_server.Idempotency.Store.{
  get_saved_response, row_response, saved_or_in_flight, return_saved_response, fill,
}
use portfolio_server.Prelude.{
  List, ◌∷◌, Bool, count, [], ◌≤◌, find?, ◌&&◌, arith, ◌≡◌, ok, none, is_some, refl, some,
  Result-cases, inr, inl, ℕ, true, false, ◌<◌, Bytes, update_where-none,
}
use portfolio_server.Idempotency.Slots.{
  Slot, slot_test, in_slot-fill, status_from-cast_signed, in_slot-claim,
}
use portfolio_server.Idempotency.Flights.{Flight, Worker, answered, saved, claim_of, save}

abbrev pub has_answer : Slot → IdempotencyRow → Bool
has_answer s row = slot_test s row && is_some row.response_status_code

-- The table holds this response for the slot.
abbrev pub Saved : Slot → List IdempotencyRow → Response → Type 0
Saved s rows r = row_response (find? (has_answer s) rows) ≡ ok (some r)

-- What a request relies on: that its answer is the one in the table.
abbrev pub IsBacked : List IdempotencyRow → Worker → Type 0
IsBacked rows (f, answered r) = Saved f.slot rows r
IsBacked rows (f, _) = Unit {0}

no_answer :
    (s : Slot) (rows : List IdempotencyRow)
    → count (slot_test s) rows ≡ 0
    → find? (has_answer s) rows ≡ none
no_answer s [] h = refl
no_answer s (row ∷ rows) h = ground (arith, no_answer s rows)

pub Saved-count :
    (s : Slot) (rows : List IdempotencyRow) (r : Response)
    → Saved s rows r
    → 1 ≤ count (slot_test s) rows
Saved-count s rows r h = ground (arith, no_answer s rows)

pub saved-Saved :
    (f : Flight) (pool : Db) (r : Response)
    → saved_or_in_flight (saved f pool) ≡ ok (return_saved_response r, none)
    → Saved f.slot pool.idempotency r
unfolding get_saved_response
saved-Saved f pool r found = elim (Result-cases (saved f pool)) [
  | inr (e, lost) ↦ ground (arith, lost, found)
  | inl (none, nothing) ↦ ground (arith, nothing, found)
  | inl (some r', there) ↦ ground (arith, there, found)
]

-- What a commit leaves in the table: the rows that were there, behind the one with the answer.
pub record Added (f : Flight) (rows rows' : List IdempotencyRow) (answer : Response) : Type 0 where
  pub status : ℕ
  pub headers : Headers
  pub body : Bytes
  pub low : 100 ≤ status
  pub high : status < 1000
  pub same : answer ≡ record { status = status; headers = headers; body = bytes body }
  pub added : rows' ≡ fill status headers body (claim_of f) ∷ rows

pub own_row : (f : Flight) → slot_test f.slot (claim_of f) ≡ true
own_row f = in_slot-claim f.env f.slot.user_id f.slot.key f.slot.operation

pub commit-Added :
    (f : Flight) (pool pool' tx : Db) (r answer : Response)
    → count (slot_test f.slot) pool.idempotency ≡ 0
    → tx.idempotency ≡ claim_of f ∷ pool.idempotency
    → 100 ≤ r.status
    → r.status < 1000
    → save f pool tx r ≡ (ok answer, pool')
    → Added f pool.idempotency pool'.idempotency answer
commit-Added f pool pool' tx r answer free rows low high saved =
    let t = f.slot in
    let (b, same, committed) =
      save_response-ok f.env pool pool' t.key t.user_id t.operation tx r answer saved in
    record {
      status = r.status;
      headers = r.headers;
      body = b;
      low = low;
      high = high;
      same = same;
      added =
          rw (committed, rows)
            (rw (
              own_row f,
              update_where-none (slot_test t) (fill r.status r.headers b) pool.idempotency free,
            ));
    }

-- The new row answers its own slot, and no other.
pub Added-own :
    (f : Flight) (rows rows' : List IdempotencyRow) (answer : Response)
    → Added f rows rows' answer
    → Saved f.slot rows' answer
Added-own f rows rows' answer new =
    rw (new.added, new.same)
      (ground (
        arith,
        own_row f,
        in_slot-fill f.slot.user_id f.slot.key f.slot.operation new.status new.headers new.body
            (claim_of f),
        status_from-cast_signed new.status new.low new.high,
      ))

pub Added-other :
    (f : Flight) (rows rows' : List IdempotencyRow) (answer : Response) (s : Slot) (r : Response)
    → Added f rows rows' answer
    → slot_test s (claim_of f) ≡ false
    → Saved s rows r
    → Saved s rows' r
Added-other f rows rows' answer s r new other h = rw new.added (
    ground (
      arith,
      other,
      h,
      in_slot-fill s.user_id s.key s.operation new.status new.headers new.body (claim_of f),
    ))
