-- ===== src/Infrastructure.antt =====
-- The configuration (src/infrastructure/config).
pub mod Settings
