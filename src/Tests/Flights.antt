-- ===== src/Tests/Flights.antt =====
-- Two requests with one key whose statements interleave: the second waits for the first, and gets
-- its answer.
use portfolio_server.Idempotency.Flights.Once.{committed_once}
use portfolio_server.Idempotency.Slots.{slot_test}
use portfolio_server.Idempotency.Flights.Answers.{same_answer}
use portfolio_server.Idempotency.Store.{
  in_slot, stored, save_response, get_saved_response, cast_signed, status_from,
}
use portfolio_server.Db.{Db}
use portfolio_server.Prelude.{count, some, arith, ◌≡◌, ◌≤◌, ◌∷◌, refl, text, text_eq, [], ◌+◌}
use portfolio_server.Http.{Response, bytes}
use portfolio_server.Tests.Samples.{quiet, two_posts}
use portfolio_server.Idempotency.Flights.{
  Flight, State, Steps, none_yet, then, step, claims, commits, conflicts, replays, Worker, starting,
  answered, claim_of, IsStart,
}

abbrev twice : Flight
twice = record {
  env = quiet;
  slot = record { user_id = some 3; key = record { value = text "k" }; operation = text "POST:/p" };
}

abbrev answer : Response
answer = record { status = 202; headers = []; body = bytes [] }

abbrev tx : Db
tx = record two_posts { idempotency = claim_of twice ∷ [] }

abbrev committed : Db
committed = stored tx twice.slot.key twice.slot.user_id twice.slot.operation answer []

abbrev both : State
both = record { pool = two_posts; workers = (twice, starting) ∷ (twice, starting) ∷ []; log = [] }

abbrev one_answered : Worker
one_answered = (twice, answered answer)

abbrev done : State
done = record { pool = committed; workers = one_answered ∷ one_answered ∷ []; log = twice ∷ [] }

schedule : Steps both 4 done
unfolding in_slot text_eq save_response get_saved_response cast_signed status_from
schedule =
    then
      (then
        (then (then none_yet (step [] ((twice, starting) ∷ []) twice (claims refl refl refl refl)))
          (step [] ((twice, starting) ∷ []) twice
            (commits tx answer answer refl (omega arith) (omega arith) refl)))
        (step (one_answered ∷ []) [] twice (conflicts refl refl refl refl)))
      (step (one_answered ∷ []) [] twice (replays answer refl))

both-IsStart : IsStart both
both-IsStart = record {
  consistent = record { answered = tt; unique = λ u key op. omega arith };
  fresh = refl;
  no_log = refl;
}

committed_once_example :
    count (λ f. slot_test twice.slot (claim_of f)) done.log
      + count (slot_test twice.slot) both.pool.idempotency
    ≤ 1
committed_once_example = committed_once twice.slot both-IsStart schedule

same_answer_example : answer ≡ answer
same_answer_example =
    same_answer [] (one_answered ∷ []) (one_answered ∷ []) [] twice twice answer answer both-IsStart
      schedule refl refl refl
