-- ===== src/Store.antt =====
-- What the repositories in src/*/DAL promise to their callers: a store of rows by key.
pub mod Spec
pub mod Lookup
pub mod View
pub mod Refines
