-- ===== src/Sfu/Channel.antt =====
-- rtmcsfu/channel.go: what a channel does with the messages that it gets, and how its two workers
-- bring the tracks of senders to receivers.
pub mod Messages
pub mod Workers
pub mod Senders
pub mod Removal
pub mod Adding
pub mod Filling
pub mod Hangups
pub mod Forwarding
pub mod Delivery
pub mod Pumping
pub mod Lives
mod PacketTests
mod Tests
