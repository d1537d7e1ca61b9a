-- ===== src/Wiring.antt =====
-- How the program is put together: src/common/dependencyRegistration.ts and src/containerConfig.ts.
pub mod Tokens
pub mod Injection
pub mod Container
pub mod Trace
pub mod Cleanup
pub mod Overrides
