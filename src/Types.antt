-- ===== src/Types.antt =====
-- src/types: the data of requests and responses, with the checks on it.
pub mod Pagination
pub mod Article
pub mod User
