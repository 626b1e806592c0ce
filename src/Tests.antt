-- ===== src/Tests.antt =====
-- Runs of the model at fixed inputs, and the theorems applied there.
mod Words
mod Table
mod Services
mod Stores
mod Extents
mod Clients
mod Reads
mod Batches
mod Remote
mod RemoteExtents
mod Plane
mod Frames
mod Pollers
mod Devices
