-- ===== src/Users/Unique.antt =====
-- The unique columns of the users and of the invitations, which the constraints of
-- migrations/20260202180017_create_users_table.sql and
-- migrations/20260331124635_create_user_invitations_table.sql keep.
use portfolio_server.Prelude.{
  Bool, List, any, update_where, IsUniqueBy, ◌≡◌, ◌==◌, update-IsUniqueBy, false, text_eq, ◌∷◌,
  refl, any_or, insert-IsUniqueBy, ◌||◌, eq_of_==, eq_of_text_eq,
}
use portfolio_server.Env.{Env}
use portfolio_server.Db.{UserRow, InvitationRow}
use portfolio_server.Users.Invite.{clashes}
use portfolio_server.Users.Accept.{same_user, consume}

pub record IsUniqueUsers (users : List UserRow) : Type 0 where
  pub ids : IsUniqueBy ◌==◌ (λ row. row.user_id) users
  pub names : IsUniqueBy text_eq (λ row. row.username) users

pub record IsUniqueInvitations (invitations : List InvitationRow) : Type 0 where
  pub ids : IsUniqueBy ◌==◌ (λ row. row.id) invitations
  pub emails : IsUniqueBy text_eq (λ row. row.email) invitations
  pub tokens : IsUniqueBy text_eq (λ row. row.invitation_token_hash) invitations
  pub times : IsUniqueBy ◌==◌ (λ row. row.created_at) invitations

pub insert-IsUniqueUsers :
    (new : UserRow) (users : List UserRow)
    → any (same_user new) users ≡ false
    → IsUniqueUsers users
    → IsUniqueUsers (new ∷ users)
insert-IsUniqueUsers new users free u =
    let (ids, names) =
      any_or (λ old. old.user_id == new.user_id) (λ old. text_eq old.username new.username) users
        free in
    record {
      ids = insert-IsUniqueBy ◌==◌ (λ row. row.user_id) new users eq_of_== ids u.ids;
      names = insert-IsUniqueBy text_eq (λ row. row.username) new users eq_of_text_eq names u.names;
    }

pub update-IsUniqueUsers :
    (p : UserRow → Bool) (f : UserRow → UserRow) (users : List UserRow)
    → ((row : UserRow) → ((f row).user_id ≡ row.user_id) × ((f row).username ≡ row.username))
    → IsUniqueUsers users
    → IsUniqueUsers (update_where p f users)
update-IsUniqueUsers p f users same u = record {
  ids = update-IsUniqueBy ◌==◌ (λ row. row.user_id) p f users (λ row. (same row).0) u.ids;
  names = update-IsUniqueBy text_eq (λ row. row.username) p f users (λ row. (same row).1) u.names;
}

pub insert-IsUniqueInvitations :
    (new : InvitationRow) (rows : List InvitationRow)
    → any (clashes new) rows ≡ false
    → IsUniqueInvitations rows
    → IsUniqueInvitations (new ∷ rows)
insert-IsUniqueInvitations new rows free u =
    let same_id : InvitationRow → Bool = λ old. old.id == new.id in
    let same_email : InvitationRow → Bool = λ old. text_eq old.email new.email in
    let same_token : InvitationRow → Bool =
      λ old. text_eq old.invitation_token_hash new.invitation_token_hash in
    let (others, times) =
      any_or (λ old. (same_id old || same_email old) || same_token old)
        (λ old. old.created_at == new.created_at) rows free in
    let (first, tokens) = any_or (λ old. same_id old || same_email old) same_token rows others in
    let (ids, emails) = any_or same_id same_email rows first in
    record {
      ids = insert-IsUniqueBy ◌==◌ (λ row. row.id) new rows eq_of_== ids u.ids;
      emails = insert-IsUniqueBy text_eq (λ row. row.email) new rows eq_of_text_eq emails u.emails;
      tokens =
          insert-IsUniqueBy text_eq (λ row. row.invitation_token_hash) new rows eq_of_text_eq tokens
            u.tokens;
      times = insert-IsUniqueBy ◌==◌ (λ row. row.created_at) new rows eq_of_== times u.times;
    }

-- Consuming invitations writes no unique column.
pub consume-IsUniqueInvitations :
    (env : Env) (p : InvitationRow → Bool) (rows : List InvitationRow)
    → IsUniqueInvitations rows
    → IsUniqueInvitations (update_where p (consume env) rows)
consume-IsUniqueInvitations env p rows u = record {
  ids = update-IsUniqueBy ◌==◌ (λ row. row.id) p (consume env) rows (λ row. refl) u.ids;
  emails = update-IsUniqueBy text_eq (λ row. row.email) p (consume env) rows (λ row. refl) u.emails;
  tokens =
      update-IsUniqueBy text_eq (λ row. row.invitation_token_hash) p (consume env) rows
        (λ row. refl) u.tokens;
  times = update-IsUniqueBy ◌==◌ (λ row. row.created_at) p (consume env) rows (λ row. refl) u.times;
}
