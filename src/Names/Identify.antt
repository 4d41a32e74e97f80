-- ===== src/Names/Identify.antt =====
-- core/util.go, `IdentifyObject`.
mod Defs
mod Laws
unfoldable pub use Defs.*
pub use Laws.*
