-- ===== src/Forge/Tests.antt =====
-- Runs of the breaker and of the ERP write path.
mod BreakerTests
mod WriteTests
mod NetSuiteTests
mod ReversalTests
mod OrderTests
