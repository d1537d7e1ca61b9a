-- ===== src/Sync.antt =====
-- src/sync: runs of the synchronisation, and their reruns.
pub mod Models
pub mod Repository
pub mod Rerun
pub mod Manager
pub mod Closure
pub mod Latest
pub mod Inserted
pub mod Numbers
pub mod Runs
pub mod Metadata
pub mod Deletion
pub mod Effects
pub mod Recorded
pub mod LastRun
pub mod History
pub mod Creation
