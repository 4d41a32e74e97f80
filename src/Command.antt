-- ===== src/Command.antt =====
-- cmd/iscsi.go and cmd/iscsi_crud.go: the commands, as steps on the state of a session.
pub mod Steps
pub mod Keeping
pub mod Create
pub mod Activate
pub mod Shares
pub mod Delete
pub mod Locate
pub mod Service
pub mod Crud
pub mod Sample
mod Tests
