-- ===== src/Turn.antt =====
-- What a turn takes from the stores: the citations of its sources and the history it replays
-- (rust/smooth-operator/src/runtime.rs, rust/smooth-operator-server/src/runner.rs).
pub mod Citations
pub mod History
pub mod Replay
mod Tests
