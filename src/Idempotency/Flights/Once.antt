-- ===== src/Idempotency/Flights/Once.antt =====
-- How often src/idempotency/persistence.rs commits an action of one slot, with several requests in
-- flight.
use portfolio_server.Idempotency.Table.{slot_test-eq}
use portfolio_server.Idempotency.Store.{fill}
use portfolio_server.Idempotency.Outcome.{save_response-ok}
use portfolio_server.Http.{Response}
use portfolio_server.Idempotency.Slots.{Slot, slot_test, in_slot-claim, in_slot-fill}
use portfolio_server.Prelude.{
  List, count, ◌+◌, ◌≡◌, ◌++◌, any, arith, ◌∷◌, ok, false, [], ◌≤◌, true, Bool-cases, inr,
  count-update_where, subst, count_of_any-false, inl, ℕ, all, refl, count-append,
}
use portfolio_server.Db.{Db, IdempotencyRow}
use portfolio_server.Idempotency.Flights.{
  Flight, State, Step, step, Advance, claims, conflicts, refused, replays, misses, commits, aborts,
  Steps, none_yet, then, IsStart, holds, holds_row, claim_of, Worker, save, Phase, at, starting,
  holding, reading, answered, is_starting, failed,
}

-- The rows of each slot after a commit: those that were there and the one of the claim.
pub count-committed :
    (s : Slot) (f : Flight) (pool pool' tx : Db) (r answer : Response)
    → tx.idempotency ≡ claim_of f ∷ pool.idempotency
    → save f pool tx r ≡ (ok answer, pool')
    → count (slot_test s) pool'.idempotency ≡ count (slot_test s) (claim_of f ∷ pool.idempotency)
count-committed s f pool pool' tx r answer rows saved =
    let t = f.slot in
    let (b, same, committed) =
      save_response-ok f.env pool pool' t.key t.user_id t.operation tx r answer saved in
    rw (committed, rows)
      (count-update_where (slot_test t) (slot_test s) (fill r.status r.headers b)
        (λ row. in_slot-fill s.user_id s.key s.operation r.status r.headers b row)
        (claim_of f ∷ pool.idempotency))

-- At most one transaction is open or committed in a slot, and the rows are the first ones and those
-- of the log.
pub record IsOnce (first : Db) (state : State) : Type 0 where
  pub exclusive :
      (s : Slot) → count (holds s) state.workers + count (slot_test s) state.pool.idempotency ≤ 1
  pub logged :
      (s : Slot)
      → count (λ f. slot_test s (claim_of f)) state.log + count (slot_test s) first.idempotency
        ≡ count (slot_test s) state.pool.idempotency

-- A free slot is still exclusive after its claim.
claimed_free :
    (s : Slot) (f : Flight) (workers : List Worker) (rows : List IdempotencyRow)
    → count (holds f.slot) workers ≡ 0
    → any (slot_test f.slot) rows ≡ false
    → slot_test s (claim_of f) ≡ true
    → (count (holds s) workers ≡ 0) × (count (slot_test s) rows ≡ 0)
claimed_free s f workers rows idle free mine =
    let own = in_slot-claim f.env f.slot.user_id f.slot.key f.slot.operation in
    subst (λ test. (count (holds_row test) workers ≡ 0) × (count test rows ≡ 0))
      (slot_test-eq f.slot s (claim_of f) own mine)
      (idle, count_of_any-false (slot_test f.slot) rows free)

-- A request that holds nothing afterwards, where nothing was written.
idle-IsOnce :
    {first pool : Db} {log : List Flight} (p q : Phase) (before after : List Worker) (f : Flight)
    → ((s : Slot) → holds s (f, q) ≡ false)
    → IsOnce first (at pool log before (f, p) after)
    → IsOnce first (at pool log before (f, q) after)
idle-IsOnce p q before after f idle once = record {
  exclusive = λ s. ground (
    arith,
    idle s,
    once.exclusive s,
    count-append (holds s) before ((f, p) ∷ after),
    count-append (holds s) before ((f, q) ∷ after),
  );
  logged = once.logged;
}

Advance-IsOnce :
    {first pool pool' : Db} {log log' : List Flight} {p q : Phase} (before after : List Worker)
    (f : Flight)
    → Advance (before ++ ((f, p) ∷ after)) f pool log p q pool' log'
    → IsOnce first (at pool log before (f, p) after)
    → IsOnce first (at pool' log' before (f, q) after)
Advance-IsOnce {first} {pool} before after f (claims up up' idle free) once = record {
  exclusive = λ s. elim (Bool-cases (slot_test s (claim_of f))) [
    | inr other ↦ ground (
      arith,
      other,
      once.exclusive s,
      count-append (holds s) before ((f, starting) ∷ after),
      count-append (holds s) before ((f, holding) ∷ after),
    )
    | inl mine ↦ ground (
      arith,
      mine,
      claimed_free s f (before ++ ((f, starting) ∷ after)) pool.idempotency idle free mine,
      count-append (holds s) before ((f, starting) ∷ after),
      count-append (holds s) before ((f, holding) ∷ after),
    )
  ];
  logged = once.logged;
}
Advance-IsOnce before after f (conflicts up up' idle taken) once =
    idle-IsOnce _ _ before after f (λ s. refl) once
Advance-IsOnce before after f (refused q e which down) once =
    idle-IsOnce _ _ before after f (λ s. refl) once
Advance-IsOnce before after f (replays r found) once =
    idle-IsOnce _ _ before after f (λ s. refl) once
Advance-IsOnce before after f (misses e missing) once =
    idle-IsOnce _ _ before after f (λ s. refl) once
Advance-IsOnce {first} {pool} {pool'} before after f (commits tx r answer rows low high saved)
      once =
    let grown : (s : Slot)
        → count (slot_test s) pool'.idempotency
          ≡ count (slot_test s) (claim_of f ∷ pool.idempotency) =
      λ s. count-committed s f pool pool' tx r answer rows saved in
    record {
      exclusive = λ s. ground (
        arith,
        once.exclusive s,
        grown s,
        count-append (holds s) before ((f, holding) ∷ after),
        count-append (holds s) before ((f, answered answer) ∷ after),
      );
      logged = λ s. ground (arith, once.logged s, grown s);
    }
Advance-IsOnce before after f (aborts e) once = idle-IsOnce _ _ before after f (λ s. refl) once

Step-IsOnce :
    {first : Db} {state next : State} → Step state next → IsOnce first state → IsOnce first next
Step-IsOnce (step before after f move) once = Advance-IsOnce before after f move once

none_hold :
    (s : Slot) (workers : List Worker)
    → all is_starting workers ≡ true
    → count (holds s) workers ≡ 0
none_hold s [] fresh = refl
none_hold s ((f, starting) ∷ workers) fresh = none_hold s workers fresh
none_hold s ((f, reading) ∷ workers) fresh = ground arith
none_hold s ((f, holding) ∷ workers) fresh = ground arith
none_hold s ((f, answered r) ∷ workers) fresh = ground arith
none_hold s ((f, failed e) ∷ workers) fresh = ground arith

pub Steps-IsOnce :
    {start state : State} {n : ℕ} → IsStart start → Steps start n state → IsOnce start.pool state
Steps-IsOnce {start} begun none_yet = record {
  exclusive = λ s. omega (
    arith,
    none_hold s start.workers begun.fresh,
    begun.consistent.unique s.user_id s.key s.operation,
  );
  logged = λ s. rw begun.no_log (omega arith);
}
Steps-IsOnce begun (then steps next) = Step-IsOnce next (Steps-IsOnce begun steps)

-- In every schedule of the statements of any number of requests, from a consistent table, at most
-- one action of each slot, a user's key and operation, is committed, and none where the table
-- had a row in the slot at the start.
pub committed_once :
    {start state : State} {n : ℕ} (s : Slot)
    → IsStart start
    → Steps start n state
    → count (λ f. slot_test s (claim_of f)) state.log + count (slot_test s) start.pool.idempotency
      ≤ 1
committed_once s begun steps =
    let once = Steps-IsOnce begun steps in omega (arith, once.exclusive s, once.logged s)
