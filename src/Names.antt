-- ===== src/Names.antt =====
-- core/util.go: what object an argument of a command names, and how names are hashed.
pub mod Identify
pub mod Hash
pub mod Hosts
mod Tests
