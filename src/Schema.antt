-- ===== src/Schema.antt =====
-- schema/: index settings, typed fields and the arguments of FT.CREATE.
pub mod Attrs
pub mod Field
pub mod Index
pub mod Advisor
mod Tests
