-- ===== src/Query.antt =====
-- query/: the builders of the search queries, and the command that runs one.
pub mod Options
pub mod Vector
pub mod Range
pub mod Simple
pub mod Terms
mod Tests
