-- ===== src/Avatar.antt =====
-- The avatar render service, hydralisk/avatar.
pub mod State
pub mod Clips
pub mod Audio
pub mod Scheduler
pub mod Protocol
pub mod Receipts
pub mod Session
pub mod Manager
