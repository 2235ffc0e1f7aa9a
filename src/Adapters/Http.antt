-- ===== src/Adapters/Http.antt =====
-- The inbound HTTP adapter (src/adapters/inbound/http): the status of an exception, who calls, and
-- the routes.
pub mod Status
pub mod Auth
pub mod Accounts
pub mod Transactions
pub mod DevToken
