-- ===== src/Cache.antt =====
-- extensions/cache/: the caches.
pub mod Vectorizer
pub mod Embeddings
pub mod Semantic
mod Tests
mod EntryTests
