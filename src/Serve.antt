-- ===== src/Serve.antt =====
-- The serving proxy, hydralisk/serve.
pub mod Settings
pub mod Gate
pub mod Metrics
pub mod Usage
pub mod Policy
pub mod Defaults
pub mod Receipts
pub mod Sse
pub mod Chat
