-- ===== src/Beacon.antt =====
-- agents/beacon: alerts for people, with their severity, their routes and their deduplication.
pub mod Alerts
pub mod Dedup
pub mod Reports
mod ReportTests
mod Tests
