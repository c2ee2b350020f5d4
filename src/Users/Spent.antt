-- ===== src/Users/Spent.antt =====
-- The rows of consumed invitations under the statements of src/routes/invitations/accept.rs.
use portfolio_server.Env.{Env}
use portfolio_server.Prelude.{
  Text, Bool, List, text_eq, find?, ◌&&◌, count, any, ◌≤◌, ◌≡◌, is_some, some, true, none,
  update_where, ◌∷◌, arith, [], refl,
}
use portfolio_server.Users.Accept.{consume, is_open, has_invitation}
use portfolio_server.Db.{InvitationRow}

abbrev pub has_token : Text → InvitationRow → Bool
has_token hash row = text_eq row.invitation_token_hash hash

abbrev pub is_spent : Text → InvitationRow → Bool
is_spent hash row = has_token hash row && is_some row.consumed_at

module _ (env : Env) (hash : Text) where
  pub any-consume :
      (p : InvitationRow → Bool) (rows : List InvitationRow)
      → any (is_spent hash) rows ≡ true
      → any (is_spent hash) (update_where p (consume env) rows) ≡ true
  any-consume p [] h = ground arith
  any-consume p (row ∷ rows) h = ground (arith, any-consume p rows)

  -- The UPDATE spends the row that the SELECT found.
  pub any-consumed :
      (rows : List InvitationRow) (row : InvitationRow)
      → find? (is_open env hash) rows ≡ some row
      → any (is_spent hash) (update_where (has_invitation row.id) (consume env) rows) ≡ true
  any-consumed [] row h = ground arith
  any-consumed (x ∷ rows) row h = ground (arith, any-consumed rows row)

  count-spent :
      (rows : List InvitationRow)
      → any (is_spent hash) rows ≡ true
      → 1 ≤ count (has_token hash) rows
  count-spent [] h = ground arith
  count-spent (row ∷ rows) h = ground (arith, count-spent rows)

  not_there :
      (rows : List InvitationRow)
      → count (has_token hash) rows ≡ 0
      → find? (is_open env hash) rows ≡ none
  not_there [] h = refl
  not_there (row ∷ rows) h = ground (arith, not_there rows)

  -- One row has the token, and it is spent.
  pub find?-spent :
      (rows : List InvitationRow)
      → count (has_token hash) rows ≤ 1
      → any (is_spent hash) rows ≡ true
      → find? (is_open env hash) rows ≡ none
  find?-spent [] one spent = refl
  find?-spent (row ∷ rows) one spent =
      ground (arith, find?-spent rows, not_there rows, count-spent rows)
