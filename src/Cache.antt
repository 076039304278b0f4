-- ===== src/Cache.antt =====
-- The cache of entities, crates/rocketsocket-cache/src.
pub mod DashMap
pub mod Resource
pub mod Config
pub mod Merge
pub mod Entity
pub mod Store
pub mod Names
pub mod Rooms
pub mod Users
pub mod Messages
pub mod Invariant
pub mod History
pub mod Update
mod Tests
