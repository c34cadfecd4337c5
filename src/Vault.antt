-- ===== src/Vault.antt =====
-- agents/vault: the custodian of ERP credentials, its HTTP service and its agent.
pub mod Encoding
pub mod Credentials
pub mod Token
pub mod Lifecycle
pub mod Endpoint
pub mod VaultAgent
pub mod Access
mod Tests
