-- ===== src/Go.antt =====
-- What the code takes from the Go language and its standard library: error values, calls with
-- effects, and the functions of `strconv` and `strings`.
mod Errors
mod Effects
pub mod Strconv
pub mod Strings
pub mod Text
pub mod Json
unfoldable pub use Errors.*
unfoldable pub use Effects.*
