-- ===== src/Bot.antt =====
-- The bot framework, crates/rocketsocket/src.
pub mod Filter
pub mod Roles
pub mod Framework
