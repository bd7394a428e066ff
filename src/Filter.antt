-- ===== src/Filter.antt =====
-- filter/: the builder of Redis Search filter expressions.
pub mod Escape
pub mod Expression
pub mod Tag
pub mod Fields
mod Tests
