-- ===== src/Sfu/Http.antt =====
-- rtmcsfu/http.go: the pages of the HTTP API over the records of a channel.
pub mod Resources
pub mod Nested
pub mod Handlers
pub mod Depth
pub mod Pages
mod Tests
