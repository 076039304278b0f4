-- ===== src/Rest.antt =====
-- The REST client, crates/rocketsocket-rest/src.
pub mod Pagination
pub mod Error
pub mod Client
mod Tests
