-- ===== src/Tests.antt =====
-- Concrete inputs, runs of the operations on them, and the properties at these inputs.
pub mod Samples
pub mod Plain
pub mod Servers
pub mod Requests
pub mod Sketches
pub mod Writes
pub mod Expiry
pub mod Lists
pub mod Queues
pub mod Logs
pub mod Replicas
pub mod Recoveries
pub mod Snapshots
