-- ===== src/Store.antt =====
-- internal/store: the records, the database as tables, and the stores over it.
pub mod Json
pub mod Types
pub mod Database
pub mod Posts
pub mod Accounts
pub mod Tokens
pub mod Webhooks
pub mod Media
pub mod Analytics
pub mod Interfaces
mod Tests
