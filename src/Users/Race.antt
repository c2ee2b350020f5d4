-- ===== src/Users/Race.antt =====
-- src/routes/invitations/accept.rs with two requests at once: the SELECT of the second comes before
-- the first has committed, its other statements after that.
use portfolio_server.Prelude.{
  Text, ◌≡◌, ok, find?, some, any, false, ◌∷◌, inl, arith, inr, ℕ, Bool, text_eq, ◌&&◌, not,
  is_some, ltb, subst, true, count, sym, ap, ◌∙◌, count-update_where, refl,
}
use portfolio_server.Http.{Response, finish}
use portfolio_server.Db.{Db, InvitationRow}
use portfolio_server.Env.{Env}
use portfolio_server.Users.Accept.{
  create_from, accept_invitation, AcceptInvitationParams, new_user, same_user, consumed, is_open,
  has_invitation, is_user_role, insert_user_row, consume,
}
use portfolio_server.Users.Invitations.{accept_invitation-Outcome}
use portfolio_server.Users.Welcome.{Accepts}

-- Two acceptances with one token can both succeed: where the first has been answered with 200, and
-- the second had found the same invitation before that, at the same time by the clock, the second is
-- answered with 200 too and adds a second user, if its own name and identifier are free and no
-- statement fails.
pub both_accepted :
    (env env' : Env) (params params' : AcceptInvitationParams) (pool after : Db) (r : Response)
    (invitation : InvitationRow) (hash : Text)
    → accept_invitation env params pool ≡ (ok r, after)
    → env'.sha256_hex params'.token ≡ env.sha256_hex params.token
    → env'.now ≡ env.now
    → find? (is_open env' (env'.sha256_hex params'.token)) pool.invitations ≡ some invitation
    → Accepts env'
    → env'.hash_password params'.password ≡ ok hash
    → any (same_user (new_user env' params'.username hash invitation)) after.users ≡ false
    → create_from env' params' invitation after ≡ (
      ok (finish 200),
      consumed env' invitation.id
          (record after { users = new_user env' params'.username hash invitation ∷ after.users }),
    )
unfolding create_from insert_user_row
both_accepted env env' params params' pool after r invitation hash accepted token now found up
      hashed free =
    elim (accept_invitation-Outcome env params pool) [
      | inl (e, failed) ↦ ground (arith, failed, accepted)
      | inr (answered, was) ↦
          let open_at : Text → ℕ → InvitationRow → Bool = λ h n row.
            text_eq row.invitation_token_hash h
            && not (is_some row.consumed_at)
            && ltb n row.expires_at in
          let at_once : find? (open_at (env'.sha256_hex params'.token) env.now) pool.invitations
              ≡ some invitation =
            subst
              (λ n.
                find? (open_at (env'.sha256_hex params'.token) n) pool.invitations
                ≡ some invitation)
              now found in
          let it : find? (open_at (env.sha256_hex params.token) env.now) pool.invitations
              ≡ some invitation =
            subst (λ h. find? (open_at h env.now) pool.invitations ≡ some invitation) token
              at_once in
          let same : was.invitation ≡ invitation = ground (arith, it, was.was_open) in
          let role : is_user_role invitation.role ≡ true = rw same at was.role in
          let one : count (has_invitation invitation.id) after.invitations ≡ 1 =
            rw (sym (ap (λ o. o.1) accepted) ∙ was.effect) (
              count-update_where (has_invitation was.invitation.id) (has_invitation invitation.id)
                (consume env) (λ row. refl) pool.invitations
              ∙ (rw same at was.one)) in
          ground (arith, up.inserts, up.consumes, up.commits, one, role, hashed, free)
    ]
