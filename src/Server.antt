-- ===== src/Server.antt =====
-- Configuration, object storage, the worker pool and the start of the two processes.
pub mod Config
pub mod Storage
pub mod Pool
pub mod Run
pub mod Start
pub mod Migrate
pub mod Worker
pub mod Serve
mod Tests
