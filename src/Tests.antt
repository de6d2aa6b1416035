-- ===== src/Tests.antt =====
-- A database, a platform and a service in memory, over which the tests run.
pub mod Rows
pub mod Memory
pub mod Service
pub mod Signing
pub mod Up
pub mod Uuids
