-- ===== src/Worker.antt =====
-- internal/worker: the handlers of the background tasks.
pub mod Publish
pub mod Refresh
pub mod Analytics
pub mod Transcode
pub mod Deliver
mod Tests
