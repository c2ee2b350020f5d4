-- ===== src/Auth.antt =====
-- src/authentication, and the handlers that sign a user in and out.
pub mod Password
pub mod Middleware
pub mod Guards
pub mod Validates
pub mod Login
pub mod VerifyTotp
pub mod Effects
pub mod Journey
pub mod Signed
pub mod Authentic
pub mod Roles
pub mod ChangePassword
