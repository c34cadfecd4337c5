-- ===== src/Agent.antt =====
-- agents/base: the event envelope, the schema registry client and the runtime that every agent
-- inherits.
pub mod Registry
pub mod Event
pub mod Store
pub mod Runtime
pub mod Frame
pub mod Listening
pub mod Emission
mod Tests
