-- ===== src/Bridge.antt =====
-- bridge: the HTTP API that shows the clients of the manager and the plugins attached to them.
pub mod Api
pub mod Clients
pub mod Answers
pub mod Manager
pub mod Reconnects
mod Tests
