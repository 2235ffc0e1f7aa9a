-- ===== src/Adapters/Sql.antt =====
-- The storage in the database (src/adapters/outbound/persistence): the session, the repositories on
-- it, and the unit of work; then what the adapters rely on of a session, and what follows of it.
pub mod Session
pub mod Repositories
pub mod UnitOfWork
pub mod Views
pub mod Atomicity
pub mod Outbox
pub mod Loading
pub mod Outcomes
pub mod Saving
pub mod Persisting
pub mod Phantom
pub mod Transfers
pub mod Requests
pub mod Accounts
