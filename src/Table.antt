-- ===== src/Table.antt =====
-- core/print_data.go: the rows that the `list` commands print.
pub mod Write
mod Widths
pub mod Layout
pub mod Formats
mod Tests
