-- ===== src/Curation.antt =====
-- Document sets, boosts and query-time filters (rust/smooth-operator/src/curation.rs).
pub mod Meta
pub mod Filter
pub mod Store
pub mod Stamps
pub mod Ranking
mod Tests
