-- ===== src/Fetch.antt =====
-- The `fetch_url` tool's guard against requests to internal addresses
-- (rust/smooth-operator/src/tools/fetch_url.rs).
pub mod Guard
pub mod Blocks
pub mod Redirects
pub mod Html
pub mod Stripping
mod Tests
