-- ===== src/Server/Visits.antt =====
-- What one client of src/startup.rs may write, by what its requests have proved.
use portfolio_server.Server.Client.{
  Visit, visit, Visited, Since, Did, From-Since, Stepped, Visited-Stepped, found_again,
}
use portfolio_server.Auth.Authentic.{Reach-Justified}
use portfolio_server.Server.Permitted.{
  Permitted, UserOf, Permitted-map, respond_to-Permitted, AdminOf,
}
use portfolio_server.Auth.Roles.{SignsIn, IsReliable, Reach-Tied}
use portfolio_server.Errors.Sql.{Anyhow}
use portfolio_server.Server.{AppData, World}
use portfolio_server.Users.ChatToken.{JwtLib}
use portfolio_server.Http.{Response}
use portfolio_server.Session.Typed.{
  SessionLib, IsLawful, get_user_id, get_user_role, user_id_key, user_role_key,
}
use portfolio_server.Prelude.{ℕ, inl, inr, Text, Result, List, ◌≡◌, false, true, ◌⊎◌}
use portfolio_server.Auth.Journey.{GavePassword, GaveCode}
use portfolio_server.Types.User.{admin}

-- A user whose password the client gave, and the code where one is asked for.
abbrev pub Proved : AppData → List Visit → ℕ → Type 0
Proved app vs id =
    Since (Did app (GavePassword id false)) vs
    ⊎ (Since (Did app (GavePassword id true)) vs × Since (Did app (GaveCode id)) vs)

-- Such a user, who was signed in when the users' table said that the user is an admin.
abbrev pub ProvedAdmin : AppData → List Visit → ℕ → Type 0
ProvedAdmin app vs id = Proved app vs id × Since (Did app (SignsIn id admin)) vs

module _ (S : SessionLib) (jwt : JwtLib) (app : AppData)
    (add_cookie : Text → Response → Result Response Anyhow) (lawful : IsLawful S) where
  user-Proved :
      (vs : List Visit) (s : S.State) (id : ℕ)
      → Stepped S jwt app add_cookie vs s
      → UserOf S s id
      → Proved app vs id
  unfolding get_user_id
  user-Proved vs s id so_far is =
      let j = Reach-Justified S lawful so_far.reach in
      elim (j.user_id id (rw (so_far.same user_id_key) at is)) [
        | inl direct ↦ inl (From-Since app (GavePassword id false) so_far.from direct)
        | inr (first, second) ↦ inr (
          From-Since app (GavePassword id true) so_far.from first,
          From-Since app (GaveCode id) so_far.from second,
        )
      ]

  admin-Proved :
      IsReliable S
      → (vs : List Visit) (s : S.State) (id : ℕ) → Stepped S jwt app add_cookie vs s
      → AdminOf S s id
      → ProvedAdmin app vs id
  unfolding get_user_id get_user_role
  admin-Proved reliable vs s id so_far (is, has) = (
    user-Proved vs s id so_far is,
    From-Since app (SignsIn id admin) so_far.from (
        Reach-Tied S lawful reliable so_far.reach id admin (rw (so_far.same user_id_key) at is)
          (rw (so_far.same user_role_key) at has)),
  )

  -- Whatever requests a client has sent, while others change the tables, its next request leaves the
  -- tables as they were, posts a contact message, accepts an invitation, changes the password of a
  -- user whose own password it gave (and code, where one is asked for), or is a call of the
  -- administration, for a user who proved to be who they are in the same way and whose row had the
  -- role of an admin at the sign-in; all of this since the last sign-out that had its token. It has
  -- the token in its cookie and its header, except where it sets up the second factor of that admin,
  -- or asks for its status.
  pub visit-Permitted :
      IsReliable S
      → (v : Visit) (vs : List Visit) (s s' : S.State) → Visited S jwt app add_cookie vs s
      → ((key : Text) → S.entry s' key ≡ S.entry s key)
      → Permitted
          (Proved app vs)
          (ProvedAdmin app vs)
          v.env
          v.request
          v.pool
          (visit S jwt app add_cookie v s').pool
  unfolding visit
  visit-Permitted reliable v vs s s' visited same =
      let so_far =
        found_again S jwt app add_cookie vs s s' same
          (Visited-Stepped S jwt app add_cookie visited) in
      let w : World S = record { pool = v.pool; session = s' } in
      Permitted-map v.env v.request v.pool (visit S jwt app add_cookie v s').pool
        (λ id is. user-Proved vs s' id so_far is)
        (λ id is. admin-Proved reliable vs s' id so_far is)
        (respond_to-Permitted S jwt app v.env v.request v.input add_cookie w)
