-- ===== src/Json.antt =====
-- The dynamic values (`interface{}`) that the program passes about, as `encoding/json` makes them
-- and as the commands build them. A float64 is a value of the parameter `F`.
mod Data
mod Print
pub mod Sample
unfoldable pub use Data.*
unfoldable pub use Print.*
