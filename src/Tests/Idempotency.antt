-- ===== src/Tests/Idempotency.antt =====
-- Tests of the idempotency flow.
use portfolio_server.Idempotency.Flights.{Flight, Steps}
use portfolio_server.Idempotency.Flights.Alone.{before, afterwards, execute_idempotent-Steps}
use portfolio_server.Errors.Blog.{post_not_found}
use portfolio_server.Idempotency.Table.{IsConsistent, AnswersInRange, try_processing-ne-in_flight}
use portfolio_server.Idempotency.Isolation.{execute_idempotent-other_slot}
use portfolio_server.Errors.Idempotency.{request_in_flight}
use portfolio_server.Idempotency.Replay.{IsUp, KeepsKeys, execute_idempotent-replay}
use portfolio_server.Blog.Delete.{process_delete_article}
use portfolio_server.Blog.Actions.{run, run-AnswersInRange, publish}
use portfolio_server.Idempotency.Store.{
  try_processing, get_saved_response, save_response, in_slot, cast_signed, status_from,
}
use portfolio_server.Blog.Publish.{process_publish_article}
use portfolio_server.Idempotency.Key.{IdempotencyKey, try_from, try_from_iff}
use portfolio_server.Types.Article.{ArticlePublishRequest}
use portfolio_server.Idempotency.Execute.{
  execute_idempotent, Action, get_idempotency_key, operation_of,
}
use portfolio_server.Prelude.{
  ℕ, ◌≡◌, ◌≢◌, refl, Text, text, true, some, [], ◌∷◌, ok, err, arith, len, text_eq, ◌↔◌, Option,
  pos, ◌<◌, List,
}
use portfolio_server.Http.{Request, Response, bytes, get}
use portfolio_server.Errors.Web.{WebError, idempotency, blog}
use portfolio_server.Db.{Db, IdempotencyRow}
use portfolio_server.Tests.Samples.{quiet, asks, two_posts, post}

abbrev request : Request
request = asks (text "PATCH") (text "/p") (text "k")

abbrev flag : ArticlePublishRequest
flag = record { post_id = 1; published = true }

abbrev action : Action WebError
action = process_publish_article quiet flag

abbrev answer : Response
answer = record { status = 202; headers = []; body = bytes [] }

abbrev key : IdempotencyKey
key = record { value = text "k" }

abbrev op : Text
op = text "PATCH:/p"

abbrev row : IdempotencyRow
row = record {
  user_id = some 3;
  idempotency_key = text "k";
  operation = op;
  response_status_code = some (pos 202);
  response_headers = some [];
  response_body = some [];
  created_at = 5000;
}

abbrev after : Db
after = record two_posts {
  idempotency = row ∷ [];
  blog_posts =
      record (post 1 (text "a")) { published = true; updated_at = 5000 } ∷ post 2 (text "b") ∷ [];
}

flow : Unit {0}
unfolding execute_idempotent get_idempotency_key try_from len get text_eq try_processing
    get_saved_response save_response in_slot cast_signed status_from process_publish_article
flow = tt

first_run :
    execute_idempotent idempotency quiet request two_posts (some 3) action ≡ (ok answer, after)
unfolding flow
first_run = refl

up : IsUp quiet
up = record { begins = refl; claims = refl; selects = refl }

keeps : KeepsKeys action
unfolding process_publish_article
keeps tx = refl

in_range : AnswersInRange action
unfolding run
in_range = run-AnswersInRange quiet (publish flag)

-- The second request would delete the article, and gets the answer of the first.
execute_idempotent-replay_example :
    execute_idempotent idempotency quiet request after
      (some 3)
      (process_delete_article quiet (record { post_id = 2 }))
    ≡ (ok answer, after)
execute_idempotent-replay_example =
    execute_idempotent-replay idempotency quiet quiet request two_posts after (some 3) action
      (process_delete_article quiet (record { post_id = 2 })) answer first_run keeps (omega arith)
      (omega arith) refl up

-- An article that is not there: the action fails, and its transaction is dropped.
failing_run :
    execute_idempotent idempotency quiet request two_posts
      (some 3)
      (process_publish_article quiet (record { post_id = 5; published = true }))
    ≡ (err (blog post_not_found), two_posts)
unfolding flow
failing_run = refl

empty-IsConsistent : IsConsistent two_posts
empty-IsConsistent = record { answered = tt; unique = λ u k o. omega arith }

valid_key : get_idempotency_key quiet request ≡ ok key
unfolding flow
valid_key = refl

other_user : ¬ ((key.value ≡ key.value) × (op ≡ op) × (◌≡◌ {A = Option ℕ} (some 3) (some 4)))
other_user (a, b, c) = ground arith

try_processing-ne-in_flight_example :
    try_processing quiet two_posts key (some 3) op ≢ err request_in_flight
try_processing-ne-in_flight_example =
    try_processing-ne-in_flight quiet two_posts key (some 3) op empty-IsConsistent

-- The same key of another user.
execute_idempotent-other_slot_example :
    get_saved_response quiet after key (some 4) op
    ≡ get_saved_response quiet two_posts key (some 4) op
execute_idempotent-other_slot_example =
    execute_idempotent-other_slot idempotency quiet quiet request two_posts after (some 3) (some 4)
      action answer key key op first_run valid_key keeps other_user

try_from_iff_example :
    (try_from (text "k") ≡ ok key)
    ↔ ((text "k" ≡ text "k") × (0 < len (text "k")) × (len (text "k") < 50))
try_from_iff_example = try_from_iff (text "k") key

execute_idempotent-Steps_example :
    (log : List Flight) × Steps
      (before quiet two_posts (some 3) key (operation_of request))
      2
      (afterwards quiet after (some 3) key (operation_of request) answer log)
execute_idempotent-Steps_example =
    execute_idempotent-Steps quiet request two_posts after (some 3) action answer key valid_key
      first_run keeps in_range
