-- ===== src/Messages.antt =====
-- src/routes/admin/dashboard/messages: reading the messages and marking them.
pub mod Delivered
pub mod Patch
pub mod List
pub mod Effects
