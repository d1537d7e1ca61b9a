-- ===== src/Migrations.antt =====
-- The migrations of the database's schema (db/migrations), as lists of the SQL statements that they
-- run.
pub mod Schema
pub mod Exec
pub mod Initial
pub mod Rerun
pub mod Later
pub mod Chain
pub mod Consistent
pub mod Undo
pub mod Created
pub mod Removed
pub mod Columns
pub mod Runs
pub mod Reversal
pub mod Cascade
