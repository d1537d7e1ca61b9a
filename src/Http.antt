-- ===== src/Http.antt =====
-- The controllers of src/*/controllers: what a request is answered.
pub mod Reply
pub mod Syncs
pub mod Files
pub mod Entities
pub mod Changesets
pub mod Routes
pub mod Statuses
