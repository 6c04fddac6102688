-- ===== src/Server.antt =====
-- server.go: the server's life cycle.
pub mod Silent
pub mod Config
pub mod Run
mod Tests
