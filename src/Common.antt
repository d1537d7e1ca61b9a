-- ===== src/Common.antt =====
-- src/common: the enumerations, the error classes, the calls that may fail, and transactions.
pub mod Enums
pub mod Errors
pub mod Action
pub mod Db
pub mod Lodash
pub mod Uniq
pub mod Utils
pub mod Transactions
pub mod Hashes
pub mod Retries
