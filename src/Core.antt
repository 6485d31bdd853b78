-- ===== src/Core.antt =====
-- The measurement code and the database under DCS_Core.
pub mod Peaks
pub mod Database
pub mod Auth
pub mod Pid
pub mod Memory
pub mod Users
mod Tests
