-- ===== src/Queue.antt =====
-- src/queueProvider: the closure queues, and the workers that consume them.
pub mod Types
pub mod Bull
pub mod Notes
pub mod Provider
pub mod Closures
pub mod Worker
pub mod Workers
pub mod Batches
pub mod Pipeline
pub mod Failures
pub mod Lifecycle
pub mod Balance
pub mod Events
pub mod Delays
pub mod Drain
