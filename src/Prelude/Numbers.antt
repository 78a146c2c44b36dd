-- ===== src/Prelude/Numbers.antt =====
-- Python's `int` and `float`. A float is any type with the operations that the code calls.
mod Int
mod Defs
mod WholeNumbers
pub use Int.*
pub use Defs.*
pub use WholeNumbers.*
