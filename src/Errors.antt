-- ===== src/Errors.antt =====
-- src/errors: the error types of the handlers with their HTTP statuses, and `actix_web::Error`,
-- into which each of them is converted.
pub mod Start
pub mod Sql
pub mod Auth
pub mod Blog
pub mod Idempotency
pub mod Message
pub mod Web
