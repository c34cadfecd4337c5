-- ===== src/Ledger.antt =====
-- agents/ledger: the double-entry books, their reconciliation with the ERP and the queries on them.
pub mod Entry
pub mod Store
pub mod Postgres
pub mod PostingAgent
pub mod Books
pub mod Outcomes
pub mod Reconcile
pub mod ReconcileAgent
pub mod Query
mod QueryTests
mod Tests
