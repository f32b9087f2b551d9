-- ===== src/Sdk.antt =====
-- The packages sdk/services of the client: the post builder and the requests of the services.
pub mod Post
pub mod Builder
pub mod Request
pub mod Account
pub mod Media
pub mod Schedule
pub mod Analytics
pub mod Posts
pub mod Routed
pub mod Wired
pub mod Authenticated
mod Tests
