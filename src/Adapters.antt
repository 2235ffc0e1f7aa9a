-- ===== src/Adapters.antt =====
-- The adapters (src/adapters).
pub mod InMemory
pub mod Sql
pub mod Mappers
pub mod Http
pub mod Redis
