-- ===== src/Contact.antt =====
-- src/routes/contact/post.rs: the contact form.
pub mod Form
pub mod RateLimit
pub mod Post
pub mod Accepts
pub mod Windows
pub mod Limits
pub mod Outcome
pub mod Spacing
