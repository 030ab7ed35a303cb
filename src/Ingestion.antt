-- ===== src/Ingestion.antt =====
-- Ingestion (rust/ingestion/src): documents are cut into chunks, and chunks are stored once.
pub mod Chunker
pub mod Bounds
pub mod Ledger
pub mod Pipeline
pub mod Labels
pub mod Indexing
pub mod Cursor
pub mod Reingest
pub mod Idempotence
mod Tests
