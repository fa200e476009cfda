-- ===== src/ApiKeys.antt =====
-- API keys in the database (pkg/apikeys).
pub mod Store
pub mod Rows
pub mod Issued
mod Tests
