-- ===== src/Domain.antt =====
-- The domain layer (src/domain): value objects, exceptions, events and the two aggregates.
pub mod Enums
pub mod Amount
pub mod Exceptions
pub mod Money
pub mod Events
pub mod Base
pub mod Account
pub mod Transaction
