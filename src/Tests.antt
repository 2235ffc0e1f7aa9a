-- ===== src/Tests.antt =====
-- Concrete inputs, and each theorem applied to one.
pub mod Schema
pub mod Data
pub mod Database
pub mod Server
pub mod Values
pub mod Entities
pub mod Transfers
pub mod Adapters
pub mod Storage
pub mod Http
