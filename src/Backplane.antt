-- ===== src/Backplane.antt =====
-- The connection backplane (rust/smooth-operator/src/backplane.rs): the registry of one process, and
-- what reaches whom.
pub mod Registry
pub mod Consistency
pub mod Delivery
mod Tests
