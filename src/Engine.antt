-- ===== src/Engine.antt =====
-- DCS_EngineControl: the commands to the motor controllers and the service that sends them.
pub mod Commands
pub mod Routing
pub mod Motion
pub mod Buffer
pub mod Serial
mod Tests
