-- ===== src/Client.antt =====
-- src/client: the retry loops, the local reader and writer, the reader and writer over a transport, sessions and batches.
pub mod Retry
pub mod Pending
pub mod Write
pub mod Read
pub mod RoundTrip
pub mod Remote
pub mod Session
pub mod Batch
