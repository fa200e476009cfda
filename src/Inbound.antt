-- ===== src/Inbound.antt =====
-- pkg/auth/inbound: which identity the credentials of a request stand for.
pub mod Types
pub mod Keys
pub mod Bearer
pub mod Oidc
pub mod Chain
pub mod Server
mod Tests
