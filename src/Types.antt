-- ===== src/Types.antt =====
-- modules/std/core: the operators and methods of the core types.
pub mod Bool
pub mod Each
pub mod Int
pub mod Signed
pub mod Division
pub mod Args
pub mod Array
pub mod Range
pub mod Ranges
pub mod Slices
pub mod Arrays
pub mod Iterator
pub mod Iterators
pub mod Checked
pub mod Pops
pub mod Text
pub mod Str
pub mod Map
mod Tests
