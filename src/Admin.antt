-- ===== src/Admin.antt =====
-- The admin API's gate and its chat history (rust/smooth-operator-server/src/admin.rs).
pub mod Gate
pub mod History
pub mod Visibility
mod Tests
