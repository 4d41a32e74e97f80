-- ===== src/Query.antt =====
-- cmd/util_common.go, `QueryApi` and what it calls: the filter and the options of a query, and what
-- is made of the response.
pub mod Filter
pub mod Groups
pub mod Denotation
pub mod Properties
pub mod Collect
pub mod Listing
pub mod Keys
pub mod Rows
pub mod Request
pub mod Sample
mod Tests
