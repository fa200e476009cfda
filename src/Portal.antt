-- ===== src/Portal.antt =====
-- The portal's sessions and its browser login: pkg/httpsrv/session.go and browserauth.go.
pub mod Session
pub mod Signed
pub mod Nonces
pub mod Login
pub mod Replay
pub mod Location
pub mod Home
mod Tests
