-- ===== src/Iscsi.antt =====
-- cmd/iscsi_util.go: the names of iSCSI targets, what the system lists of them, the tool that logs in
-- and out of them, and the look-ups of portals and initiators.
pub mod TargetNames
pub mod Listings
pub mod Slices
pub mod Sessions
pub mod Tool
pub mod Lookups
pub mod Portals
pub mod Deactivation
mod Tests
