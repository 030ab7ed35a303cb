-- ===== src/Server.antt =====
-- The server: its events, its turns, its state and the dispatch of a connection's frames
-- (rust/smooth-operator-server/src).
pub mod Protocol
pub mod Agent
pub mod Streaming
pub mod Turn
pub mod Confidential
pub mod Config
pub mod State
pub mod Registry
pub mod Policy
pub mod Sessions
pub mod Dispatch
pub mod Answers
pub mod Late
pub mod Liveness
pub mod Totality
pub mod SessionLaws
mod Tests
pub mod Embedding
