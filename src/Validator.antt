-- ===== src/Validator.antt =====
-- The validator of OIDC bearer tokens (pkg/auth/oidc.go): its cache of keys and its checks on
-- claims.
pub mod Keys
pub mod Claims
pub mod Cached
pub mod Served
pub mod Accepted
pub mod Signed
mod Tests
