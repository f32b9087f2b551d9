-- ===== src/Lifecycle.antt =====
-- The life of posts and targets: the steps that handlers and workers make on the database and the
-- queue, in any order and with any failures.
pub mod Keeps
pub mod Status
pub mod Steps
pub mod Statuses
mod Tests
