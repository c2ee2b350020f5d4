-- ===== src/Lib.antt =====
-- The server behind a portfolio site, in Rust: a blog with its administration, a contact form
-- whose messages are read by the administrator, and the sign-in that guards both. Requests reach
-- the handlers through middlewares (src/authentication/middleware.rs), handlers keep the
-- signed-in user in a session (src/session_state.rs), and each handler that writes articles,
-- messages or invitations hands its work to the idempotency flow
-- (src/idempotency/persistence.rs), which runs it in a transaction, at most once for a key.
--
-- Files and what they model:
-- - Prelude and its children: shared names, lists, texts, results, `i64`, lemmas on tables.
-- - Http, Env, Db: requests and responses; what comes from outside of the code; the tables of
--   migrations/.
-- - Errors: src/errors and the helpers of src/utils.rs.
-- - Types/Article, Types/Pagination, Types/User: src/types. Their children hold the theorems.
-- - Idempotency/Key: src/idempotency/key.rs. Idempotency/Store and Idempotency/Execute:
--   src/idempotency/persistence.rs, `try_processing`, `save_response`, `get_saved_response` and
--   `execute_idempotent`. Slots, Outcome, Replay, Table and Isolation hold the theorems.
--   Idempotency/Flights: the same flow with several requests whose statements interleave; Once, Answers
--   and Alone hold the theorems.
-- - Blog/Post, Blog/Edit, Blog/Publish, Blog/Delete, with Slug and Rows:
--   src/routes/admin/dashboard/blog. Builder, Effects, Unique and Actions hold the theorems.
-- - Blog/List: src/routes/blog/get.rs. Listing and Reader hold the theorems.
-- - Contact/Form, Contact/Post: src/routes/contact/post.rs, with the trigger of
--   migrations/20260206152500_add_message_deduplication.sql. Contact/RateLimit: the function of
--   migrations/20260206153053_add_email_rate_limiting.sql. Accepts, Windows, Limits, Outcome and Spacing hold
--   the theorems.
-- - Messages/Patch, Messages/List: src/routes/admin/dashboard/messages. Effects and Delivered hold the theorems.
-- - Session/Typed: src/session_state.rs, over an interface for the session of actix-session.
-- - Auth/Middleware: src/authentication/middleware.rs, and how src/startup.rs wraps the admin routes.
--   Auth/Password and Auth/ChangePassword: src/authentication/password.rs, the check of credentials
--   and the change of a password. Auth/Login: src/routes/login. Auth/VerifyTotp:
--   src/routes/verify_totp/post.rs. Guards, Validates, Effects, Journey, Signed, Authentic and Roles hold
--   the theorems; Journey defines the states that a session can reach.
-- - Crypto: src/crypto.rs.
-- - Users/Totp: src/routes/admin/dashboard/totp; its child Machine is a state machine of
--   the second factor. Users/Invite: src/routes/admin/dashboard/user_actions/create_invite.rs. Users/Accept:
--   src/routes/invitations/accept.rs. Users/Admin: src/routes/admin/dashboard/user_actions/edit_users.rs.
--   Users/ChatToken: src/routes/chat_token/get.rs. Totp/Refines, Totp/Enrolled, Invitations, Welcome,
--   Race, Unique, Spent and Well hold the theorems.
-- - System: the handlers that write, one request after the other, as src/startup.rs routes them.
--   System/Writes: the ways in which a request can write; Calls: which way each request takes. Keys,
--   Sound, Spent and Listed hold the theorems.
-- - Startup: the routes of src/startup.rs and the middlewares in front of them; Token, Guarded,
--   Runs and Passes hold the theorems. Startup/Build: `Application::build` and `run`, over the
--   libraries' objects; Built holds a theorem. Configuration: src/configuration.rs. Process: src/main.rs.
-- - Server: the whole server, each route with its handler, on the tables and the session of one
--   request; also src/routes/home and src/routes/health_check.rs. Changes: what each handler may do.
--   Client: a client over its requests, while others change the tables. Sound: the requests of all
--   clients. Client, Permitted, Visits, Forged and Sound hold the theorems.
-- - Tests: runs at concrete inputs.
--
-- How state and effects are written: a handler takes the committed tables and gives back its
-- result with the tables afterwards. A transaction is the copy of the tables that it works on; a
-- commit makes the copy the committed tables, an error drops it. A statement may fail by
-- `Env.fault`; a COMMIT that fails is taken to have committed nothing. A session is the state of
-- the library's session, taken and given back likewise. A panic is an error that drops the
-- transaction. A handler's error is a response already when a middleware sees it, as in actix-web;
-- an error of a middleware goes on as one. In Idempotency/Flights the statements of several
-- requests interleave: a step is one statement, or an action with its save, of one request; an
-- INSERT into a slot waits while another open transaction has a row there, and only committed rows
-- are seen.
--
-- Bounds: an `i64` wraps around at 64 bits, as in a release build; lengths of texts are in bytes of
-- UTF-8. No definition runs on fuel: all recursion is on lists.
--
-- Parameters: the clock, one for the program and the database, fresh UUIDs, the texts of UUIDs
-- and times, the failures of statements, the serialisers that serde derives, the parser of e-mail
-- addresses, md5, argon2, AES-GCM, totp-rs, jsonwebtoken, random tokens and their digests,
-- actix-session, what an error renders to beside its status, and the order of rows without ORDER BY. Their documented behaviour is a hypothesis where a theorem uses it.
--
-- Extractors of actix-web (JSON, forms, queries, paths) are parameters too: a request comes with what
-- they made of it, and a handler runs only when they succeed. So are, for the start of the server, the
-- pool, the listener, the session store, and the server that is built.
--
-- Not modelled: requests that interleave elsewhere than in the idempotency flow and in the
-- acceptance of an invitation, since a transaction takes effect at once there, and a handler
-- without one, such as those of the second factor, runs as a whole; the order of rows with equal
-- times; the order of rows without ORDER BY, which is a parameter; logging; and what libraries do
-- with the options of CORS, of cookies and of the session's lifetime, which are handed to them.
mod Prelude
pub mod Http
pub mod Errors
pub mod Env
pub mod Db
pub mod Types
pub mod Idempotency
pub mod Blog
pub mod Contact
pub mod Crypto
pub mod Session
pub mod Auth
pub mod Messages
pub mod System
pub mod Users
pub mod Configuration
pub mod Startup
pub mod Server
pub mod Process
mod Tests
