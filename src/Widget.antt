-- ===== src/Widget.antt =====
-- Policies of embedded widgets (rust/smooth-operator/src/widget_auth.rs).
pub mod Origin
pub mod Context
mod Tests
