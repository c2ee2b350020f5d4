-- ===== src/System/Spent.antt =====
-- Sequences of requests after an acceptance, src/routes/invitations/accept.rs.
use portfolio_server.Users.Invitations.{accept_invitation-Outcome}
use portfolio_server.System.Calls.{serve-Written}
use portfolio_server.Errors.Web.{WebError}
use portfolio_server.Users.Spent.{is_spent, any-consume, any-consumed, find?-spent}
use portfolio_server.System.Sound.{IsSound, Reachable-IsSound}
use portfolio_server.Http.{Request, Response}
use portfolio_server.Prelude.{Text, any, ◌≡◌, true, ok, arith, err, inl, inr}
use portfolio_server.Users.Accept.{AcceptInvitationParams, accept_invitation, has_invitation}
use portfolio_server.Env.{Env}
use portfolio_server.Db.{Db}
use portfolio_server.System.{Call, serve, accepts, Reachable, serves}
use portfolio_server.System.Writes.{
  Written, Tables, nothing, articles, invitation, acceptance, account,
}

-- The tables that more requests lead to.
pub data Onward (start : Db) : Db → Type 0 where
  here : Onward start start
  more :
      (pool : Db) (env : Env) (request : Request) (call : Call)
      → Onward start pool
      → Onward start (serve env request call pool).1

Onward-Reachable : {start pool : Db} → Reachable start → Onward start pool → Reachable pool
Onward-Reachable reach here = reach
Onward-Reachable reach (more pool env request call steps) =
    serves pool env request call (Onward-Reachable reach steps)

Written-spent :
    {env : Env} {before after : Tables} (hash : Text)
    → Written env before after
    → any (is_spent hash) before.invitations ≡ true
    → any (is_spent hash) after.invitations ≡ true
Written-spent hash nothing spent = spent
Written-spent hash (articles posts keeps) spent = spent
Written-spent hash (invitation row free) spent = ground (arith, spent)
Written-spent {env} {before} hash (acceptance id user fresh good) spent =
    any-consume env hash (has_invitation id) before.invitations spent
Written-spent hash (account id f updates) spent = spent

Onward-spent :
    {start pool : Db} (hash : Text)
    → Onward start pool
    → any (is_spent hash) start.invitations ≡ true
    → any (is_spent hash) pool.invitations ≡ true
Onward-spent hash here spent = spent
Onward-spent hash (more pool env request call steps) spent =
    Written-spent hash (serve-Written env request call pool) (Onward-spent hash steps spent)

-- A token whose invitation is spent is refused.
spent-refused :
    (env : Env) (params : AcceptInvitationParams) (pool : Db)
    → IsSound pool
    → any (is_spent (env.sha256_hex params.token)) pool.invitations ≡ true
    → (e : WebError) × (accept_invitation env params pool ≡ (err e, pool))
spent-refused env params pool sound spent = elim (accept_invitation-Outcome env params pool) [
  | inl failed ↦ failed
  | inr (answered, was) ↦
      let closed =
        find?-spent env (env.sha256_hex params.token) pool.invitations
          (sound.others.invitations.tokens (env.sha256_hex params.token)) spent in
      ground (arith, closed, was.was_open)
]

-- Where requests come one after the other: once an invitation was accepted, every later acceptance
-- with its token, after any further requests, whoever sends it, fails and changes no table.
pub accepted_once :
    (env env' : Env) (request : Request) (params params' : AcceptInvitationParams) (pool later : Db)
    (r : Response)
    → Reachable pool
    → (accept_invitation env params pool).0 ≡ ok r
    → Onward (accept_invitation env params pool).1 later
    → env'.sha256_hex params'.token ≡ env.sha256_hex params.token
    → (e : WebError) × (accept_invitation env' params' later ≡ (err e, later))
unfolding serve
accepted_once env env' request params params' pool later r reach accepted steps same =
    let after = (accept_invitation env params pool).1 in
    let hash = env.sha256_hex params.token in
    let reached = serves pool env request (accepts params) reach in
    let spent : any (is_spent hash) after.invitations ≡ true =
      elim (accept_invitation-Outcome env params pool) [
        | inl (e, failed) ↦ ground (arith, failed, accepted)
        | inr (answered, was) ↦
            rw was.effect (any-consumed env hash pool.invitations was.invitation was.was_open)
      ] in
    spent-refused env' params' later (Reachable-IsSound (Onward-Reachable reached steps))
      (rw same (Onward-spent hash steps spent))
