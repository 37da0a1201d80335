-- ===== src/Tts.antt =====
-- The text-to-speech lane, hydralisk/tts.
pub mod Normalize
pub mod Seam
pub mod Receipts
pub mod Settings
pub mod Service
pub mod Tests
