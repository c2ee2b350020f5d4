-- ===== src/Session.antt =====
-- src/session_state.rs: `TypedSession`, over the session of the library actix-session.
pub mod Typed
pub mod Entries
