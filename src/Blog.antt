-- ===== src/Blog.antt =====
-- src/routes/admin/dashboard/blog and src/routes/blog: creating, editing, publishing, deleting and
-- listing articles.
pub mod Slug
pub mod Rows
pub mod Post
pub mod Edit
pub mod Publish
pub mod Delete
pub mod Builder
pub mod Effects
pub mod Unique
pub mod Actions
pub mod List
pub mod Listing
pub mod Reader
