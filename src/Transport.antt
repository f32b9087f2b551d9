-- ===== src/Transport.antt =====
-- sdk/transport.go, sdk/errors.go, sdk/client.go and sdk/options.go: the HTTP transport of the SDK.
pub mod Errors
pub mod Backoff
pub mod Retry
pub mod Client
pub mod Request
mod Tests
