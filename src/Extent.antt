-- ===== src/Extent.antt =====
-- src/engine/extent.rs: the region of large objects, a byte buffer with headers in front of the data.
-- `allocated` is a hash set without order in the source: here a list without repetitions.
pub mod Header
pub mod Region
pub mod Remote
pub mod Holds
