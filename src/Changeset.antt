-- ===== src/Changeset.antt =====
-- src/changeset: the changesets that entities are uploaded in.
pub mod Models
pub mod Repository
pub mod Manager
