-- ===== src/Migrations.antt =====
-- The migrations (alembic/versions), and the models that they serve
-- (src/adapters/outbound/persistence/models).
pub mod Schema
pub mod Initial
pub mod Models
pub mod Runs
pub mod Undo
