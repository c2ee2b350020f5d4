-- ===== src/Idempotency/Flights/Answers.antt =====
-- The answers that src/idempotency/persistence.rs gives to the requests of one slot, with several in
-- flight.
use portfolio_server.Idempotency.Flights.Added.{
  saved-Saved, Added, IsBacked, Saved, Added-other, own_row, Saved-count, commit-Added, Added-own,
}
use portfolio_server.Idempotency.Flights.Once.{IsOnce, Steps-IsOnce}
use portfolio_server.Http.{Response}
use portfolio_server.Db.{Db, IdempotencyRow}
use portfolio_server.Prelude.{
  List, All, ◌++◌, ◌∷◌, count, [], arith, ◌≡◌, inr, inl, ℕ, true, all, subst, Bool-cases, All-split,
  All-join, All-map, count-append,
}
use portfolio_server.Idempotency.Slots.{Slot, slot_test}
use portfolio_server.Idempotency.Flights.{
  Flight, Worker, answered, saved, claim_of, State, Step, Phase, is_starting, step, IsStart, at,
  Steps, holding, failed, then, starting, conflicts, reading, refused, holds, none_yet, replays,
  misses, aborts, claims, commits,
}

-- The rows of the slot that an open transaction holds.
rows_of_held :
    {first pool : Db} {log : List Flight} (before after : List Worker) (f : Flight) (s : Slot)
    → IsOnce first (at pool log before (f, holding) after)
    → slot_test s (claim_of f) ≡ true
    → count (slot_test s) pool.idempotency ≡ 0
rows_of_held before after f s once mine =
    ground (arith, mine, once.exclusive s, count-append (holds s) before ((f, holding) ∷ after))

Added-IsBacked :
    {first pool : Db} {log : List Flight} (before after : List Worker) (f : Flight)
    (rows' : List IdempotencyRow) (answer : Response)
    → IsOnce first (at pool log before (f, holding) after)
    → Added f pool.idempotency rows' answer
    → (w : Worker) → IsBacked pool.idempotency w
    → IsBacked rows' w
Added-IsBacked {pool = pool} before after f rows' answer once new (g, answered r) h =
    elim (Bool-cases (slot_test g.slot (claim_of f))) [
      | inr other ↦ Added-other f pool.idempotency rows' answer g.slot r new other h
      | inl mine ↦ absurd (
          omega (
            arith,
            rows_of_held before after f g.slot once mine,
            Saved-count g.slot pool.idempotency r h,
          ))
    ]
Added-IsBacked before after f rows' answer once new (g, starting) h = tt
Added-IsBacked before after f rows' answer once new (g, reading) h = tt
Added-IsBacked before after f rows' answer once new (g, holding) h = tt
Added-IsBacked before after f rows' answer once new (g, failed e) h = tt

abbrev Backed : State → Type 0
Backed state = All (IsBacked state.pool.idempotency) state.workers

-- A request that moves without writing.
still :
    (rows : List IdempotencyRow) (p q : Phase) (before after : List Worker) (f : Flight)
    → IsBacked rows (f, q)
    → All (IsBacked rows) (before ++ ((f, p) ∷ after))
    → All (IsBacked rows) (before ++ ((f, q) ∷ after))
still rows p q before after f it backed =
    let (front, was, back) = All-split (IsBacked rows) before (f, p) after backed in
    All-join (IsBacked rows) before (f, q) after front it back

Step-Backed :
    {first state next : _} → Step state next → IsOnce first state → Backed state → Backed next
Step-Backed (step before after f (claims up up' idle free)) once backed =
    still _ _ _ before after f tt backed
Step-Backed (step before after f (conflicts up up' idle taken)) once backed =
    still _ _ _ before after f tt backed
Step-Backed (step before after f (refused q e which down)) once backed =
    still _ _ _ before after f tt backed
Step-Backed (step {pool = pool} before after f (replays r found)) once backed =
    still _ _ _ before after f (saved-Saved f pool r found) backed
Step-Backed (step before after f (misses e missing)) once backed =
    still _ _ _ before after f tt backed
Step-Backed
      (step {pool = pool} {pool' = pool'} before after f (commits tx r answer rows low high saved))
      once backed =
    let free = rows_of_held before after f f.slot once (own_row f) in
    let new = commit-Added f pool pool' tx r answer free rows low high saved in
    let (front, was, back) =
      All-split (IsBacked pool.idempotency) before (f, holding) after backed in
    let kept =
      All-map (IsBacked pool.idempotency) (IsBacked pool'.idempotency)
        (Added-IsBacked before after f pool'.idempotency answer once new) in
    All-join (IsBacked pool'.idempotency) before (f, answered answer) after (kept before front)
      (Added-own f pool.idempotency pool'.idempotency answer new) (kept after back)
Step-Backed (step before after f (aborts e)) once backed = still _ _ _ before after f tt backed

starting-Backed :
    (rows : List IdempotencyRow) (ws : List Worker)
    → all is_starting ws ≡ true
    → All (IsBacked rows) ws
starting-Backed rows [] fresh = tt
starting-Backed rows ((f, starting) ∷ ws) fresh = (tt, starting-Backed rows ws fresh)
starting-Backed rows ((f, reading) ∷ ws) fresh = ground arith
starting-Backed rows ((f, holding) ∷ ws) fresh = ground arith
starting-Backed rows ((f, answered r) ∷ ws) fresh = ground arith
starting-Backed rows ((f, failed e) ∷ ws) fresh = ground arith

Steps-Backed : {start state : State} {n : ℕ} → IsStart start → Steps start n state → Backed state
Steps-Backed {start} begun none_yet =
    starting-Backed start.pool.idempotency start.workers begun.fresh
Steps-Backed begun (then steps next) =
    Step-Backed next (Steps-IsOnce begun steps) (Steps-Backed begun steps)

-- The answer of a request is the response that the table holds for its slot.
answered-Saved :
    {start state : State} {n : ℕ} (before after : List Worker) (f : Flight) (r : Response)
    → IsStart start
    → Steps start n state
    → state.workers ≡ before ++ ((f, answered r) ∷ after)
    → Saved f.slot state.pool.idempotency r
answered-Saved {state = state} before after f r begun steps here =
    let rows = state.pool.idempotency in
    (All-split (IsBacked rows) before (f, answered r) after
      (subst (All (IsBacked rows)) here (Steps-Backed begun steps))).1

-- In every schedule of the statements of any number of requests, from a consistent table, any two
-- requests of one slot that were answered got the same response.
pub same_answer :
    {start state : State} {n : ℕ} (before after before' after' : List Worker) (f g : Flight)
    (r r' : Response)
    → IsStart start
    → Steps start n state
    → state.workers ≡ before ++ ((f, answered r) ∷ after)
    → state.workers ≡ before' ++ ((g, answered r') ∷ after')
    → g.slot ≡ f.slot
    → r ≡ r'
same_answer before after before' after' f g r r' begun steps here there same =
    let mine = answered-Saved before after f r begun steps here in
    let yours = answered-Saved before' after' g r' begun steps there in
    ground (arith, mine, rw same at yours)
