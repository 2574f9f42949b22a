-- ===== src/Cache.antt =====
-- The Redis side: internal/infrastructure/cache.
pub mod Revert
pub mod Given
pub mod Deduct
pub mod Inventory
pub mod Counts
pub mod Accepts
pub mod Once
pub mod Rehydrate
pub mod Keeps
pub mod Unwritten
pub mod Seeded
pub mod Seeds
