-- ===== src/Platform.antt =====
-- internal/platform: the adapters of the platforms and their registry.
pub mod Adapter
pub mod Registry
pub mod Instagram
pub mod Youtube
pub mod Laws
