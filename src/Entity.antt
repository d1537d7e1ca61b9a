-- ===== src/Entity.antt =====
-- src/entity: the entities of a file.
pub mod Models
pub mod Repository
pub mod Manager
pub mod Bulk
pub mod Updates
