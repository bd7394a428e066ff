-- ===== src/Vectors.antt =====
-- vectors/vectors.go: float vectors as the byte buffers of Redis.
pub mod Half
pub mod Buffer
mod Tests
