-- ===== src/Users.antt =====
-- The users of the table `users`: their second factors, invitations, roles, and the chat token.
pub mod Rows
pub mod Totp
pub mod Invite
pub mod Accept
pub mod Admin
pub mod ChatToken
pub mod Invitations
pub mod Unique
pub mod Spent
pub mod Well
pub mod Welcome
pub mod Race
