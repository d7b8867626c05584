-- ===== src/Mcu.antt =====
-- internal/kwm/mcu: the client of the MCU API of one kwm server, and the plugins attached to it.
pub mod Client
pub mod Resource
pub mod Attach
mod Tests
