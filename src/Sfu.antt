-- ===== src/Sfu.antt =====
-- internal/kwm/mcu/plugins/rtmcsfu: the selective forwarding unit.
pub mod Types
pub mod Steps
pub mod Connection
pub mod Users
pub mod Channel
pub mod Plugin
pub mod Incoming
pub mod P2p
pub mod Negotiator
pub mod Http
mod Samples
mod Tests
