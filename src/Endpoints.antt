-- ===== src/Endpoints.antt =====
-- Test endpoints that stream their bodies: pkg/endpoints/data, streaming and export.
pub mod Data
pub mod Streaming
pub mod Sized
pub mod Prefix
mod Tests
pub mod Export
pub mod Reached
