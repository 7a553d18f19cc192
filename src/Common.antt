-- ===== src/Common.antt =====
-- What the components share: library names passed on, Boolean tests, lists over the native
-- numbers, signed integers, and sequencing of code that may stop.
mod Basics
mod Tests
mod Lists
mod Int
mod Fallible
mod Ranges
unfoldable pub use Basics.*
pub use Tests.*
pub use Lists.*
unfoldable pub use Int.*
pub use Fallible.*
pub use Ranges.*
