-- ===== src/Storage.antt =====
-- The in-memory storage adapter (rust/adapters/in-memory/src/lib.rs) behind the seam of
-- rust/smooth-operator/src/adapter.rs.
pub mod Tables
pub mod Conversations
pub mod Paging
pub mod Rows
mod Tests
