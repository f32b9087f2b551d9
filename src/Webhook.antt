-- ===== src/Webhook.antt =====
-- sdk/webhook.go: signing and verifying webhook deliveries, and the router that dispatches them.
pub mod Signature
pub mod Router
mod Tests
