-- ===== src/Audit.antt =====
-- The audit trail: pkg/httpmw/audit.go, pkg/httpmw/logger.go and pkg/audit.
pub mod Capture
pub mod Capped
pub mod Recorded
pub mod Agree
pub mod Redact
pub mod Hidden
pub mod Event
pub mod Audited
pub mod Queue
pub mod Drained
pub mod Shutdown
pub mod Memory
pub mod Queried
pub mod Sorted
pub mod Newest
mod Tests
