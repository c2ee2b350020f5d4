-- ===== src/Server/Sound.antt =====
-- The tables of src/startup.rs over the requests of all its clients, in any order.
use portfolio_server.Server.Permitted.{
  Permitted, visits, respond_to-Permitted, joins, keeps_account, administers,
}
use portfolio_server.System.Sound.{IsSound, Reachable-IsSound}
use portfolio_server.System.{
  Reachable, IsFirst, starts, serves, posts_message, accepts, changes_password,
}
use portfolio_server.Db.{Db}
use portfolio_server.Env.{Env}
use portfolio_server.Errors.Sql.{Anyhow}
use portfolio_server.Http.{Response, Request}
use portfolio_server.Server.{AppData, World, Inputs, respond_to}
use portfolio_server.Users.ChatToken.{JwtLib}
use portfolio_server.Session.Typed.{SessionLib}
use portfolio_server.Prelude.{ℕ, Text, Result}

module _ (S : SessionLib) (jwt : JwtLib) (app : AppData)
    (add_cookie : Text → Response → Result Response Anyhow) where
  -- The tables that the server can have after requests of whatever method, path and body, with
  -- sessions in whatever state.
  pub data Served : Db → Type 0 where
    opens : (pool : Db) → IsFirst pool → Served pool
    answers :
        (w : World S) (env : Env) (request : Request) (input : Inputs)
        → Served w.pool
        → Served (respond_to S jwt app env request input add_cookie w).1.pool

  Permitted-Reachable :
      {Owns Admins : ℕ → Type 0} (env : Env) (request : Request) (before after : Db)
      → Permitted Owns Admins env request before after
      → Reachable before
      → Reachable after
  Permitted-Reachable env request before after Permitted.unchanged r = r
  Permitted-Reachable env request before after (visits config form token) r =
      serves before env request (posts_message config form) r
  Permitted-Reachable env request before after (joins params token) r =
      serves before env request (accepts params) r
  Permitted-Reachable env request before after (keeps_account id body owns token) r =
      serves before env request (changes_password id body) r
  Permitted-Reachable env request before after (administers id call is needs same token) r =
      serves before env request call r

  Served-Reachable : {pool : Db} → Served pool → Reachable pool
  Served-Reachable (opens pool first) = starts pool first
  Served-Reachable (answers w env request input served) =
      Permitted-Reachable env request w.pool
        (respond_to S jwt app env request input add_cookie w).1.pool
        (respond_to-Permitted S jwt app env request input add_cookie w) (Served-Reachable served)

  -- In all tables that the server can have after any requests of any clients, one after the other,
  -- through its routes and middlewares, from first ones, whichever statements fail: each row of the
  -- table of keys has a response that can be replayed, and no user has two rows for one key and
  -- operation; the identifiers and slugs of the articles, the identifiers and names of the users,
  -- and the identifiers, addresses and tokens of the invitations are unique; and every user whose
  -- second factor is on has a secret, and every user a role of the type `user_role`.
  pub Served-IsSound : {pool : Db} → Served pool → IsSound pool
  Served-IsSound served = Reachable-IsSound (Served-Reachable served)
