-- ===== src/Config.antt =====
-- The configuration (pkg/config/config.go).
pub mod Types
pub mod Load
pub mod Loaded
mod Tests
