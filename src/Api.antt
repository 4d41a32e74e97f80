-- ===== src/Api.antt =====
-- core/util_json.go: what the program reads out of an API response.
mod Values
mod Response
pub mod Results
mod Tests
unfoldable pub use Values.*
unfoldable pub use Response.*
