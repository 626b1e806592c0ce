-- ===== src/Layout.antt =====
-- src/engine/layout.rs: the lock word, the 64-byte hash bucket with its two storage modes, the keys,
-- and the extent headers. A `u64` is a native number below `2 ^ 64`; `<<` drops the high bits.
pub mod LockWord
pub mod Bucket
