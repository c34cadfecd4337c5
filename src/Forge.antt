-- ===== src/Forge.antt =====
-- agents/forge: work orders, the ERP write lifecycle, the circuit breaker and the write agent.
pub mod Breaker
pub mod NetSuite
pub mod Write
pub mod Orders
pub mod OrderAgent
pub mod WriteAgent
mod Tests
