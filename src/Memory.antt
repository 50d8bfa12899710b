-- ===== src/Memory.antt =====
-- memory2/: the long-term memory.
pub mod Dedup
