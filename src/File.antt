-- ===== src/File.antt =====
-- src/file: the files of a sync.
pub mod Models
pub mod Repository
pub mod Manager
pub mod Closure
pub mod Creation
pub mod Bulk
