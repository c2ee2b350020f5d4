-- ===== src/System/Sound.antt =====
-- The invariant of the tables, and the requests of src/startup.rs that write to them.
use portfolio_server.System.Calls.{serve-Written}
use portfolio_server.System.Keys.{serve-IsConsistent}
use portfolio_server.Users.Rows.{has_user}
use portfolio_server.Users.Accept.{has_invitation}
use portfolio_server.Users.Well.{is_well}
use portfolio_server.Idempotency.Table.{IsConsistent}
use portfolio_server.Users.Unique.{
  insert-IsUniqueInvitations, IsUniqueUsers, insert-IsUniqueUsers, consume-IsUniqueInvitations,
  IsUniqueInvitations, update-IsUniqueUsers,
}
use portfolio_server.Blog.Effects.{IsUniquePosts}
use portfolio_server.Db.{Db}
use portfolio_server.Prelude.{all, ◌≡◌, arith, true, all-update_where}
use portfolio_server.Env.{Env}
use portfolio_server.System.{Reachable, starts, serves}
use portfolio_server.System.Writes.{
  Written, tables, Tables, nothing, articles, invitation, acceptance, account,
}

-- What holds of the articles, the users and the invitations.
pub record IsSoundTables (t : Tables) : Type 0 where
  pub posts : IsUniquePosts t.posts
  pub users : IsUniqueUsers t.users
  pub well : all is_well t.users ≡ true
  pub invitations : IsUniqueInvitations t.invitations

pub record IsSound (db : Db) : Type 0 where
  pub keys : IsConsistent db
  pub others : IsSoundTables (tables db)

pub Written-IsSoundTables :
    {env : Env} {before after : Tables}
    → Written env before after
    → IsSoundTables before
    → IsSoundTables after
Written-IsSoundTables nothing sound = sound
Written-IsSoundTables (articles posts keeps) sound = record {
  posts = keeps sound.posts;
  users = sound.users;
  well = sound.well;
  invitations = sound.invitations;
}
Written-IsSoundTables {before} (invitation row free) sound = record {
  posts = sound.posts;
  users = sound.users;
  well = sound.well;
  invitations = insert-IsUniqueInvitations row before.invitations free sound.invitations;
}
Written-IsSoundTables {env} {before} (acceptance id user fresh good) sound = record {
  posts = sound.posts;
  users = insert-IsUniqueUsers user before.users fresh sound.users;
  well = ground (arith, good, sound.well);
  invitations =
      consume-IsUniqueInvitations env (has_invitation id) before.invitations sound.invitations;
}
Written-IsSoundTables {before} (account id f updates) sound = record {
  posts = sound.posts;
  users =
      update-IsUniqueUsers (has_user id) f before.users
        (λ row. (updates.ids row, updates.names row)) sound.users;
  well =
      all-update_where (has_user id) is_well f before.users (sound.users.ids id) sound.well
        updates.well;
  invitations = sound.invitations;
}

-- In all tables that a sequence of requests leads to from first ones, whatever the database does,
-- each row of the table of keys has a response that can be replayed and no user has two rows for one
-- key and operation; the identifiers and slugs of the articles, the identifiers and names of the
-- users, and the identifiers, addresses and tokens of the invitations are unique; and every user
-- whose second factor is on has a secret, and a role of the type `user_role`.
pub Reachable-IsSound : {pool : Db} → Reachable pool → IsSound pool
Reachable-IsSound (starts pool first) = record {
  keys = record {
    answered = rw first.no_keys tt;
    unique = λ u key op. rw first.no_keys (omega arith);
  };
  others = record {
    posts = rw first.no_posts (record { ids = λ id. omega arith; slugs = λ slug. omega arith });
    users = first.users;
    well = first.well;
    invitations = rw first.no_invitations (record {
      ids = λ id. omega arith;
      emails = λ email. omega arith;
      tokens = λ token. omega arith;
      times = λ time. omega arith;
    });
  };
}
Reachable-IsSound (serves pool env request call reach) =
    let before = Reachable-IsSound reach in
    record {
      keys = serve-IsConsistent env request call pool before.keys;
      others = Written-IsSoundTables (serve-Written env request call pool) before.others;
    }
