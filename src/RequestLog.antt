-- ===== src/RequestLog.antt =====
-- reqlog.go: request ids, the access log and its metrics.
pub mod Id
pub mod Labels
pub mod Config
pub mod Emit
pub mod Serve
pub mod Path
mod Tests
