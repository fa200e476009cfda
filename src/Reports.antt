-- ===== src/Reports.antt =====
-- What the portal reads of the audit trail (pkg/httpsrv/portal_api.go, portal_audit_aggregations.go
-- and portal_audit_stream.go).
pub mod Filter
pub mod Aggregate
pub mod Timeseries
pub mod Breakdown
pub mod Stats
pub mod Export
pub mod Stream
mod Tests
