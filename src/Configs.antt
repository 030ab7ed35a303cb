-- ===== src/Configs.antt =====
-- The settings of an organization's agent (rust/smooth-operator/src/settings.rs) and its connector
-- configurations (rust/smooth-operator/src/connector_config.rs), each in memory.
pub mod Settings
pub mod Connectors
pub mod Isolation
mod Tests
