-- ===== src/Concurrency.antt =====
-- src/engine/concurrency.rs: the lease lock of a bucket, reads without the lock, and takeover.
pub mod Lock
pub mod Occ
pub mod Laws
pub mod Words
pub mod Acquire
pub mod Exclusion
pub mod Safety
