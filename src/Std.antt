-- ===== src/Std.antt =====
-- What the sources use of Rust's standard library: `str` and `String`, UTF-8, `HashMap`, the
-- decimal `Display` of an unsigned integer, slices, and panics.
pub mod Text
pub mod Utf8
pub mod HashMap
pub mod Slice
pub mod Outcome
pub mod Result
pub mod Io
pub mod Decimal
