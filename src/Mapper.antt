-- ===== src/Mapper.antt =====
-- agents/mapper: coercion of payloads between the versions of a schema.
pub mod Paths
pub mod Coercion
pub mod Shapes
pub mod Records
pub mod Erp
mod Tests
mod RecordTests
