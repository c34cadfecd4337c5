-- ===== src/Ticker.antt =====
-- agents/ticker: the inbound edge for the webhooks of an ERP.
pub mod Webhook
mod Tests
