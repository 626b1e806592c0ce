-- ===== src/Lib.antt =====
-- The core of rdmas, a key-value store of buckets and extents that clients reach by one-sided RDMA.
--
-- Base holds what the modules share: Boolean tests, lists over native numbers, bit operations, runs that
-- may panic (an index or slice out of range, a failed assert), byte buffers with little-endian integers.
-- Layout models src/engine/layout.rs: Layout.LockWord the bits of HashBucket::lock_version, Layout.Bucket
-- the bucket and its methods. A u64 or u32 is a number; shifts and sums that can leave the width are
-- taken modulo 2^64 or 2^32 where the source wraps.
-- Cuckoo models src/engine/cuckoo.rs: Cuckoo.Defs the calls on `&mut self` (new, insert, insert_extent,
-- lookup, delete, with the kick chain as recursion on the rounds of `0..max_kick`, so no fuel is added),
-- Cuckoo.LockFree the calls on `&self`. Cuckoo.View is the abstract table, a map from keys to payloads,
-- with the invariant that the calls keep; the insertion, lookup and deletion are related to it.
-- Concurrency models src/engine/concurrency.rs: Concurrency.Lock and Concurrency.Occ the calls,
-- Concurrency.Exclusion the clients of one lock word as a step relation with one access per step. The
-- loop of try_acquire_lock runs over a list of rounds, each with the clock and the interference it meets.
-- Extent models the region of src/engine/extent.rs over a byte buffer: Extent.Header the headers of both
-- formats and their detection, Extent.Region the operations, Extent.Holds what it means that an extent is
-- in place, Extent.Region.Tiled the region as a store of extents that share its bytes with the free blocks and
-- the tail. The set of allocated offsets is a list without repetitions; a slice out of range panics.
-- Slab models src/engine/slab.rs, Replication src/control/replication.rs, Bootstrap
-- src/engine/bootstrap.rs, Lru src/engine/lru.rs,
-- Gc src/engine/gc.rs.
-- Transport is the interface of src/transport/mod.rs as a record of operations, Transport.Memory what it
-- promises (reads and writes act on one remote memory), and Transport.Tcp the client's frames of
-- src/transport/tcp.rs over a stream that is a parameter. Extent.Remote models the
-- DistributedExtentAllocator over the interface.
-- Client.Retry and Client.Pending model src/client/retry.rs and src/error.rs; their loops run on fuel
-- `max_retries + 1`, which is always enough, and the random jitter of the waits is left out. Client.Write and Client.Read model the halves of
-- src/client/write.rs and src/client/read.rs that work on a slice of buckets, Client.Remote the halves that
-- work over a transport, with buckets in the wire format of Layout.Bucket.Wire. Client.Read.Agrees and
-- Client.Write.Agrees relate them to the server's table, Client.RoundTrip and Client.Remote.Meet a write to the
-- read after it. Client.Batch models src/client/opt.rs, Client.Session src/client/session.rs, and
-- Control src/control/server.rs and src/control/tenant.rs: a session gets the answers of the control plane as
-- arguments, and a lock is one step.
-- Connector models crates/lmcache-connector/src/lib.rs, the batches of the Python connector over the
-- server's table and region, less the Python objects.
-- Rdma models src/rdma: Rdma.Verbs is the part of the verbs library that the source calls, as a record that
-- is a parameter, Rdma.Qp the requests, chains and transitions of qp.rs, Rdma.Cq the polling of cq.rs,
-- Rdma.Guard the guard of qp_recovery.rs. Runtime models src/runtime: Runtime.Poller the harvest and the
-- loops of both pollers of poller.rs, Runtime.Ops the pieces of ops.rs, and Runtime.System the callers of rdma_read,
-- rdma_write and rdma_cas and the pollers as a step relation over one map of waiting senders, in which no call of
-- rdma_batch takes part; a
-- oneshot channel is the list of what was delivered to a call. Transport.Rdma models src/transport/rdma.rs
-- over the guard and Transport.Rdma.Swaps runs of its swaps, Mem.Region src/mem/region.rs over the calls of the operating system, Watermark
-- src/engine/watermark.rs over the operations on floats, Connector.Director the hashes that
-- crates/lmcache-connector/src/director.rs reports.
-- Tests holds runs at fixed inputs and the applications of the theorems.
--
-- Third-party code is a parameter (the hash xxh64, the memory behind a transport, the stream of bytes, the
-- verbs, the operating system, floating point); the system clock is a number that each call is given.
-- Not modelled: the verbs library itself and the creation of its objects, GPU memory, gRPC and TLS, the set-up
-- of threads and of epoll, Python bindings, metrics, logging, and the memory orderings of atomics.
pub mod Base
pub mod Bootstrap
pub mod Client
pub mod Concurrency
pub mod Connector
pub mod Control
pub mod Cuckoo
pub mod Extent
pub mod Gc
pub mod Layout
pub mod Lru
pub mod Mem
pub mod Rdma
pub mod Replication
pub mod Runtime
pub mod Slab
pub mod Tests
pub mod Transport
pub mod Watermark
