-- ===== src/Middleware.antt =====
-- What stands between the server and a handler: pkg/httpmw, and the gates of pkg/httpsrv.
pub mod Identity
pub mod Portal
pub mod Cors
pub mod Admission
mod Tests
