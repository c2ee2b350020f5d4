-- ===== src/Tests/Users.antt =====
-- Second factors, invitations and acceptances.
use mathlib.Core.List.{Permᴰ}
use mathlib.Core.List.Permᴰ
use portfolio_server.System.Listed.{Shows, get_all_users-Shows}
use portfolio_server.Users.Admin.{User, get_all_users}
use portfolio_server.Users.Race.{both_accepted}
use portfolio_server.Users.Totp.Enrolled.{IsFaithful, totp_setup-check_code}
use portfolio_server.Crypto
use portfolio_server.Idempotency.Key.{try_from}
use portfolio_server.System.Spent.{accepted_once, here}
use portfolio_server.Errors.Web.{WebError}
use portfolio_server.Idempotency.Store.{try_processing, get_saved_response, save_response}
use portfolio_server.Idempotency.Execute.{
  execute_idempotent, execute_idempotent_with, get_idempotency_key,
}
use portfolio_server.Env.{respond, Env}
use portfolio_server.Users.Rows.{fetch_user, has_user}
use portfolio_server.Types.User.{chat_user}
use portfolio_server.Crypto.{Cipher, encrypt, decrypt}
use portfolio_server.Users.Welcome.{Accepts, invited-accepted}
use portfolio_server.Http.{Request, finish, get, Response, Json}
use portfolio_server.System.{serve, IsFirst, invites, serves, starts}
use portfolio_server.Users.Invite.{
  CreateUser, process_create_new_user, create_user, insert_invitation_row, new_invitation,
  validate_user, invited,
}
use portfolio_server.Auth.VerifyTotp.{TotpLib, check_code}
use portfolio_server.Users.Totp.{totp_setup, totp_confirm}
use portfolio_server.Prelude.{
  Bytes, text_eq, text, [], refl, ok, ◌∷◌, none, some, false, arith, ◌≡◌, as_bytes, encode_utf8,
  map, true, err, len, Result, find?, List, Text,
}
use portfolio_server.Db.{UserRow, Db}
use portfolio_server.Tests.Samples.{quiet, two_posts, asks}
use portfolio_server.Users.Totp.Machine.{sets_up, confirms, TotpCall, manage, Moved}
use portfolio_server.Users.Totp.Refines.{manage-Moved}
use portfolio_server.Users.Invitations.{Outcome, accept_invitation-Outcome}
use portfolio_server.Users.Accept.{
  AcceptInvitationParams, accept_invitation, consumed, new_user, create_from, insert_user_row,
}

abbrev tagging : Cipher
tagging = record {
  seal = λ key nonce plain. some (0 ∷ plain);
  unseal = λ key nonce sealed. elim sealed [ [] ↦ none | tag ∷ plain ↦ some plain ];
}

abbrev nonce : Bytes
nonce = 1 ∷ 2 ∷ 3 ∷ 4 ∷ 5 ∷ 6 ∷ 7 ∷ 8 ∷ 9 ∷ 10 ∷ 11 ∷ 12 ∷ []

-- The code of a secret is the secret.
abbrev lib : TotpLib
lib = record {
  from_utf8 = λ b. ok b;
  new_totp = λ secret name. ok secret;
  check_current = λ totp code. ok (text_eq totp code);
  to_encoded = λ secret. secret;
  new_raw_totp = λ secret name. ok secret;
  get_url = λ totp. text "otpauth://";
}

abbrev amy : UserRow
amy = record {
  user_id = 1;
  username = text "amy";
  password_hash = text "pw";
  totp_secret = none;
  totp_enabled = false;
  role = some (text "admin");
  must_change_password = false;
}

abbrev with_amy : Db
with_amy = record two_posts { users = amy ∷ [] }

abbrev setting_up : TotpCall
setting_up = sets_up lib tagging [] (text "JBSW") nonce

manage-Moved_example : Moved quiet setting_up 1 with_amy amy (manage quiet setting_up 1 with_amy)
manage-Moved_example = manage-Moved quiet setting_up 1 with_amy amy refl

-- After the right code the factor is on.
abbrev enabled : Db
enabled =
    (manage quiet (confirms lib tagging [] (text "JBSW")) 1
      (manage quiet setting_up 1 with_amy).1).1

on_after_the_code : map (λ row. row.totp_enabled) enabled.users ≡ true ∷ []
unfolding manage totp_setup totp_confirm fetch_user encrypt decrypt check_code text_eq as_bytes
    encode_utf8
on_after_the_code = refl

abbrev new_bob : CreateUser
new_bob = record { email = text "bob@example.org"; role = chat_user }

abbrev from_bob : AcceptInvitationParams
from_bob = record { token = text "token"; username = text "bob"; password = text "secret" }

abbrev invitation : Db
invitation = record with_amy { invitations = new_invitation quiet new_bob ∷ [] }

accept_invitation-Outcome_example :
    Outcome quiet from_bob invitation (accept_invitation quiet from_bob invitation)
accept_invitation-Outcome_example = accept_invitation-Outcome quiet from_bob invitation

abbrev accepted : Db
accepted = consumed quiet 9 (record invitation {
  users =
      new_user quiet (text "bob") (text "secret") (new_invitation quiet new_bob) ∷ with_amy.users;
})

abbrev all_up : Accepts quiet
all_up = record { begins = refl; selects = refl; inserts = refl; consumes = refl; commits = refl }

invited-accepted_example :
    (respond quiet 200 (invited quiet (text "https://example.org"))
      ≡ respond quiet 200 (
          Json.field (text "success") (Json.bool true) (
            Json.field (text "message") (Json.str (text "Invitation created successfully.")) (
              Json.field
                (text "link")
                (Json.str (text "https://example.org/invitation/accept?token=token"))
                Json.end))))
    × (accept_invitation quiet from_bob invitation ≡ (ok (finish 200), accepted))
unfolding process_create_new_user insert_invitation_row text_eq
invited-accepted_example =
    invited-accepted quiet quiet (text "https://example.org") (text "secret") new_bob from_bob
      with_amy invitation (respond quiet 200 (invited quiet (text "https://example.org"))) refl
      all_up refl refl (omega arith) refl refl

abbrev inviting : Request
inviting = asks (text "POST") (text "/v1/admin/create_user") (text "key-1")

abbrev first : Db
first = record {
  idempotency = [];
  messages = [];
  rate_limits = [];
  blog_posts = [];
  users = amy ∷ [];
  invitations = [];
}

amy_alone : IsFirst first
unfolding text_eq
amy_alone = record {
  no_keys = refl;
  no_posts = refl;
  no_invitations = refl;
  users = record { ids = λ id. ground arith; names = λ name. ground arith };
  well = refl;
}

abbrev asked : Db
asked = (serve quiet inviting (invites 1 (text "https://example.org") new_bob) first).1

-- The same token twice.
accepted_once_example :
    (e : WebError) × (accept_invitation quiet from_bob (accept_invitation quiet from_bob asked).1
      ≡ (err e, (accept_invitation quiet from_bob asked).1))
unfolding serve create_user validate_user process_create_new_user insert_invitation_row
    accept_invitation create_from insert_user_row execute_idempotent execute_idempotent_with
    get_idempotency_key try_processing get_saved_response save_response text_eq get try_from len
accepted_once_example =
    accepted_once quiet quiet inviting from_bob from_bob asked _ (finish 200)
      (serves first quiet inviting (invites 1 (text "https://example.org") new_bob)
        (starts first amy_alone))
      refl here refl

tagging-IsLawful : Crypto.IsLawful tagging
tagging-IsLawful = record { unseal-seal = λ key nonce plain sealed done. ground arith }

lib-IsFaithful : IsFaithful lib (text "JBSW")
unfolding as_bytes encode_utf8
lib-IsFaithful = record { reads = refl; same = λ name. refl }

abbrev set_up_by_amy : Result Response WebError × Db
set_up_by_amy = totp_setup quiet lib tagging [] (text "JBSW") nonce 1 with_amy

abbrev shown : Response
shown = respond quiet 200 (Json.field (text "otpauth_uri") (Json.str (text "otpauth://")) Json.end)

totp_setup-check_code_example :
    (row' : UserRow) × (encrypted : Bytes) × (totp : Bytes) × (find?
        (has_user 1)
        set_up_by_amy.1.users
      ≡ some row')
    × (row'.totp_secret ≡ some encrypted)
    × (shown
        ≡ respond quiet 200
            (Json.field (text "otpauth_uri") (Json.str (lib.get_url totp)) Json.end))
    × ((code : Text)
        → check_code quiet lib tagging [] 1 encrypted code ≡ lib.check_current totp code)
unfolding totp_setup fetch_user encrypt as_bytes encode_utf8
totp_setup-check_code_example =
    totp_setup-check_code quiet quiet lib tagging [] (text "JBSW") nonce 1 with_amy set_up_by_amy.1
      amy shown tagging-IsLawful lib-IsFaithful refl refl refl refl refl

abbrev later_quiet : Env
later_quiet = record quiet { new_uuid = 10 }

abbrev from_eve : AcceptInvitationParams
from_eve = record { token = text "token"; username = text "eve"; password = text "sesame" }

first_accepted : accept_invitation quiet from_bob invitation ≡ (ok (finish 200), accepted)
unfolding accept_invitation create_from insert_user_row text_eq
first_accepted = refl

both_accepted_example : create_from later_quiet from_eve (new_invitation quiet new_bob) accepted ≡ (
  ok (finish 200),
  consumed later_quiet 9 (record accepted {
    users =
        new_user later_quiet (text "eve") (text "sesame") (new_invitation quiet new_bob)
        ∷ accepted.users;
  }),
)
unfolding text_eq
both_accepted_example =
    both_accepted quiet later_quiet from_bob from_eve invitation accepted (finish 200)
      (new_invitation quiet new_bob) (text "sesame") first_accepted refl refl refl
      (record { begins = refl; selects = refl; inserts = refl; consumes = refl; commits = refl })
      refl refl

get_all_users-Shows_example :
    (users : List User) × (rows : List UserRow) × Permᴰ first.users rows
    × (get_all_users quiet first ≡ ok users)
    × Shows quiet rows users
get_all_users-Shows_example =
    get_all_users-Shows quiet first (starts first amy_alone) refl (Permᴰ.refl first.users)
