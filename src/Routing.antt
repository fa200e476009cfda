-- ===== src/Routing.antt =====
-- The registry of routes and what each endpoint group registers: pkg/endpoints.
pub mod Registry
pub mod Catalog
pub mod Resolve
pub mod Unambiguous
mod Tests
