-- ===== src/JitterBuffer.antt =====
-- internal/jitterbuffer: the receive buffer of one stream (`Buffer`), the packets (`Packet`), the
-- rates (`Rates`) and the registry of all streams with its loops (`Registry`).
pub mod Packet
pub mod Buffer
pub mod Rates
pub mod Registry
mod Tests
