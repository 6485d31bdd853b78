-- ===== src/Acquisition.antt =====
-- The drivers under DCS_Acquisition.
pub mod Temperature
pub mod Tasks
pub mod Channels
pub mod Encoder
pub mod Events
mod Tests
