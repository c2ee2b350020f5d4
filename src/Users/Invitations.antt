-- ===== src/Users/Invitations.antt =====
-- What inviting and accepting do, src/routes/admin/dashboard/user_actions/create_invite.rs and
-- src/routes/invitations/accept.rs.
use portfolio_server.Errors.Sql.{SqlError, msg}
use portfolio_server.Errors.Web.{WebError, error_with}
use portfolio_server.Http.{Response, finish}
use portfolio_server.Prelude.{
  Result, Text, find?, ◌≡◌, some, err, ok, ◌⊎◌, true, any, false, count, ◌∷◌, Result-cases, ℕ, inr,
  inl, Option-cases, Bool-cases, refl, ap, text, subst, suc, zero, ◌==◌, ◌||◌, text_eq, none,
  update_where, ◌&&◌, not, is_some, ltb,
}
use portfolio_server.Db.{Db, InvitationRow, UserRow}
use portfolio_server.Env.{
  Env, insert_user, unique_violation, consume_invitation, begin, select_invitation, commit,
}
use portfolio_server.Users.Accept.{
  AcceptInvitationParams, accept_invitation, create_from, insert_user_row, is_open, is_user_role,
  new_user, same_user, consumed, has_invitation, conclude, failed_user, server_error, bad_role,
}

-- The invitation that was accepted, and what that did.
pub record Accepted (env : Env) (params : AcceptInvitationParams) (pool after : Db) : Type 0 where
  pub invitation : InvitationRow
  pub hash : Text
  pub was_open :
      find?
        (λ row.
          text_eq row.invitation_token_hash (env.sha256_hex params.token)
          && not (is_some row.consumed_at)
          && ltb env.now row.expires_at)
        pool.invitations
      ≡ some invitation
  pub hashed : env.hash_password params.password ≡ ok hash
  pub role : is_user_role invitation.role ≡ true
  pub fresh :
      any (λ old. old.user_id == env.new_uuid || text_eq old.username params.username) pool.users
      ≡ false
  pub one : count (has_invitation invitation.id) pool.invitations ≡ 1
  pub effect : after ≡ record pool {
    users =
        record {
          user_id = env.new_uuid;
          username = params.username;
          password_hash = hash;
          totp_secret = none;
          totp_enabled = false;
          role = some invitation.role;
          must_change_password = false;
        }
        ∷ pool.users;
    invitations =
        update_where
          (λ row. row.id == invitation.id)
          (λ row. record row { consumed_at = some env.now })
          pool.invitations;
  }

insert_user_row-cases :
    (env : Env) (role : Text) (row : UserRow) (tx : Db)
    → ((e : SqlError) × (insert_user_row env role row tx ≡ err e))
      ⊎ ((is_user_role role ≡ true)
          × (any (same_user row) tx.users ≡ false)
          × (insert_user_row env role row tx ≡ ok (record tx { users = row ∷ tx.users })))
unfolding insert_user_row
insert_user_row-cases env role row tx = elim (Option-cases (env.fault insert_user)) [
  | inr (e, down) ↦ inl (e, rw (down, insert_user_row) refl)
  | inl up ↦ elim (Bool-cases (is_user_role role)) [
    | inr bad ↦ inl (bad_role env, rw (up, bad, insert_user_row) refl)
    | inl good ↦ elim (Bool-cases (any (same_user row) tx.users)) [
      | inl taken ↦ inl (unique_violation env, rw (up, good, taken, insert_user_row) refl)
      | inr free ↦ inr (good, free, rw (up, good, free, insert_user_row) refl)
    ]
  ]
]

conclude-cases :
    (env : Env) (pool tx : Db) (n : ℕ)
    → ((e : WebError) × (conclude env pool tx n ≡ (err e, pool)))
      ⊎ ((n ≡ 1) × (conclude env pool tx n ≡ (ok (finish 200), tx)))
conclude-cases env pool tx zero = inl (failed_user, refl)
conclude-cases env pool tx (suc (suc n)) = inl (failed_user, refl)
conclude-cases env pool tx (suc zero) = elim (Option-cases (env.fault commit)) [
  | inr (e, down) ↦ inl (server_error e, rw (down, conclude) refl)
  | inl up ↦ inr (refl, rw (up, conclude) refl)
]

-- Either an error and the tables as they were, or an acceptance.
abbrev pub Outcome : Env → AcceptInvitationParams → Db → Result Response WebError × Db → Type 0
Outcome env params pool out =
    ((e : WebError) × (out ≡ (err e, pool)))
    ⊎ ((out.0 ≡ ok (finish 200)) × Accepted env params pool out.1)

create_from-Outcome :
    (env : Env) (params : AcceptInvitationParams) (invitation : InvitationRow) (pool : Db)
    → find? (is_open env (env.sha256_hex params.token)) pool.invitations ≡ some invitation
    → Outcome env params pool (create_from env params invitation pool)
unfolding create_from
create_from-Outcome env params invitation pool was_open =
    elim (Result-cases (env.hash_password params.password)) [
      | inr (e, down) ↦ inl (error_with 500 (msg e), rw (down, create_from) refl)
      | inl (hash, hashed) ↦
          let row = new_user env params.username hash invitation in
          elim (insert_user_row-cases env invitation.role row pool) [
            | inl (e, down) ↦ inl (server_error e, rw (hashed, down, create_from) refl)
            | inr (good, free, inserted) ↦ elim (Option-cases (env.fault consume_invitation)) [
              | inr (e, down) ↦ inl (server_error e, rw (hashed, inserted, down, create_from) refl)
              | inl up ↦
                  let tx = consumed env invitation.id (record pool { users = row ∷ pool.users }) in
                  let n = count (has_invitation invitation.id) pool.invitations in
                  elim (conclude-cases env pool tx n) [
                    | inl (e, failed) ↦ inl (e, rw (hashed, inserted, up, failed, create_from) refl)
                    | inr (one, done) ↦
                        let same : create_from env params invitation pool ≡ (ok (finish 200), tx) =
                          rw (hashed, inserted, up, done, create_from) refl in
                        inr (
                          ap (λ o. o.0) same,
                          record {
                            invitation = invitation;
                            hash = hash;
                            was_open = was_open;
                            hashed = hashed;
                            role = good;
                            fresh = free;
                            one = one;
                            effect = ap (λ o. o.1) same;
                          },
                        )
                  ]
            ]
          ]
    ]

-- An acceptance that fails changes no table, and answers an error. One that succeeds answers 200,
-- found an invitation that was issued with the token, not consumed and not expired, whose row it
-- marks as consumed, and adds one user with its role, whose identifier and username were new.
pub accept_invitation-Outcome :
    (env : Env) (params : AcceptInvitationParams) (pool : Db)
    → Outcome env params pool (accept_invitation env params pool)
unfolding accept_invitation
accept_invitation-Outcome env params pool = elim (Option-cases (env.fault begin)) [
  | inr (e, down) ↦ inl (server_error e, rw (down, accept_invitation) refl)
  | inl up ↦ elim (Option-cases (env.fault select_invitation)) [
    | inr (e, down) ↦ inl (server_error e, rw (up, down, accept_invitation) refl)
    | inl up' ↦
        elim (Option-cases (find? (is_open env (env.sha256_hex params.token)) pool.invitations)) [
          | inl closed ↦ inl (
            error_with 400 (msg (text "Invalid or expired invitation token")),
            rw (up, up', closed, accept_invitation) refl,
          )
          | inr (invitation, was_open) ↦
              subst (Outcome env params pool) (rw (up, up', was_open, accept_invitation) refl)
                (create_from-Outcome env params invitation pool was_open)
        ]
  ]
]
