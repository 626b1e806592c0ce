-- ===== src/Mem.antt =====
-- src/mem: memory for remote access.
pub mod Region
