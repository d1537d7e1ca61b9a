-- ===== src/Invariant.antt =====
-- Invariants over the steps by which the program changes the database.
pub mod Keeps
pub mod Facts
pub mod References
pub mod Managers
pub mod Reach
pub mod Guards
pub mod Atomic
pub mod Requests
