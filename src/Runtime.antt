-- ===== src/Runtime.antt =====
-- src/runtime: the pollers of a completion queue, and the calls that wait for their completions.
pub mod Poller
pub mod Ops
pub mod System
