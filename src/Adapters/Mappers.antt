-- ===== src/Adapters/Mappers.antt =====
-- Rows and mappers: src/adapters/outbound/persistence/models and mappers. A row is what the ORM
-- object holds; what the database makes of a number is a parameter of RoundTrip.
pub mod AccountMapper
pub mod TransactionMapper
pub mod RoundTrip
pub mod Columns
