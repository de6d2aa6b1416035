-- ===== src/Repository/Correct.antt =====
-- internal/repository against the contract that the services rely on, table by table.
mod Ids
pub mod Users
pub mod Tokens
pub mod Attempts
pub mod Audits
