-- ===== src/Cuckoo.antt =====
-- src/engine/cuckoo.rs: the two-choice table with its kick chain. A call that changes the table
-- returns it beside its result. `panic` is an index out of range or a failed `assert!`.
pub mod Defs
pub mod View
pub mod Put
pub mod Slots
pub mod Chain
pub mod Insert
pub mod Lookup
pub mod New
pub mod LockFree
