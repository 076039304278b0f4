-- ===== src/Realtime.antt =====
-- The realtime client, crates/rocketsocket-realtime/src: the parts of one connection.
pub mod Backoff
pub mod Liveness
pub mod Session
pub mod Correlate
pub mod Subscription
pub mod Replay
pub mod Standby
pub mod Supervise
pub mod Connection
