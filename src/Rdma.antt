-- ===== src/Rdma.antt =====
-- src/rdma: queue pairs, completion queues and the guard, over the calls of the verbs library.
pub mod Verbs
pub mod Qp
pub mod Cq
pub mod Guard
