-- ===== src/Api.antt =====
-- internal/api: the handlers and the middleware.
pub mod Routes
pub mod Http
pub mod Post
pub mod Schedule
pub mod Account
pub mod Media
pub mod Analytics
pub mod Webhook
pub mod Middleware
pub mod Chain
mod Tests
