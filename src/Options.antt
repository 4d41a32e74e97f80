-- ===== src/Options.antt =====
-- cmd/util_common.go and cmd/util_flags.go: the options of a command, from their text to the
-- parameters of a call and the columns of a table.
pub mod Params
pub mod Enums
pub mod Columns
pub mod Splitting
pub mod RoundTrip
mod Tests
