-- ===== src/Search.antt =====
-- Reranking and the search of the knowledge base (rust/smooth-operator/src/rerank.rs,
-- rust/smooth-operator/src/tools/knowledge_search.rs).
pub mod Rerank
pub mod Reordering
pub mod Tool
pub mod Grounded
pub mod Toy
mod Tests
