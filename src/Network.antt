-- ===== src/Network.antt =====
-- DCS_Network: messages and their wire format, the server, the client and the command line.
pub mod Message
pub mod Calls
pub mod Server
pub mod Client
pub mod Cli
mod Tests
