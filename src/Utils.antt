-- ===== src/Utils.antt =====
-- DCS_Utils: the containers, the timer and the string type that the other libraries are built on.
pub mod ByteQueue
pub mod MessageQueue
pub mod Timer
pub mod Vector
pub mod Text
mod Tests
