-- ===== src/Adapters/Sql/Atomicity.antt =====
-- What a request that raises leaves in the table of accounts.
pub mod Commit
pub mod Statements
pub mod Block
pub mod Request
