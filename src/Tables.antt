-- ===== src/Tables.antt =====
-- The five tables of the database: the entity classes in src/*/DAL, with their keys and references.
mod Rows
mod Schema
pub mod Keys
pub mod References
pub mod Changes
pub use Rows.*
unfoldable pub use Schema.*
