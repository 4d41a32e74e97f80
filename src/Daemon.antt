-- ===== src/Daemon.antt =====
-- core/daemon.go: the daemon that keeps logged-in sessions and passes requests on to them.
pub mod Session
pub mod Listen
pub mod Jobs
pub mod Pool
pub mod Serve
mod Tests
