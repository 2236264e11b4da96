-- ===== src/Strings.antt =====
-- What the source uses of Go's `strings` and `strconv` packages, over byte strings. `Space` has the
-- functions that know Unicode white space, `Cut` the laws of `strings.Cut` and `strings.Split`,
-- and `Number` the decimal readers.
mod Cut
mod Space
mod Number
pub mod Decimal
unfoldable pub use Cut.*
unfoldable pub use Space.*
unfoldable pub use Number.*
