-- ===== src/Index.antt =====
-- The package redisvl at the root: the search index, its replies and the records that it loads.
pub mod Value
pub mod Reply
pub mod Server
pub mod Search
pub mod Paginate
pub mod Records
pub mod Ids
pub mod Load
pub mod Admin
pub mod Batch
mod Tests
mod LoopTests
