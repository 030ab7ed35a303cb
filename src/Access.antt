-- ===== src/Access.antt =====
-- Document-level access control (rust/smooth-operator/src/access_control.rs): allow-lists, the
-- requester's entitlements, and the knowledge store that records the ones and filters by the others.
pub mod Acl
pub mod Store
pub mod Entitlement
pub mod Reader
pub mod Recording
mod Tests
