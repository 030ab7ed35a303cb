-- ===== src/Auth.antt =====
-- Who may do what: the bearer tokens and roles of the service, and the policy of embedded widgets
-- (rust/smooth-operator/src/auth.rs, rust/smooth-operator/src/widget_auth.rs).
pub mod Principal
pub mod Verifier
pub mod Config
pub mod Secure
mod Tests
