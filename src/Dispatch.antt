-- ===== src/Dispatch.antt =====
-- Requests that the portal sends into its own mux: replays of recorded ones
-- (pkg/httpsrv/portal_audit_replay.go) and those that an operator makes up (portal_tryit.go).
pub mod Captured
pub mod Buffered
pub mod Sent
pub mod Replay
pub mod TryIt
pub mod Lookup
pub mod Dropped
pub mod Operator
pub mod Asked
pub mod Admitted
pub mod Guarded
pub mod Substitute
pub mod Counted
pub mod Substituted
mod Tests
