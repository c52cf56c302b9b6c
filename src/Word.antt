-- ===== src/Word.antt =====
-- Binary digits of numbers, and 32-bit words as the numbers below 2^32.
mod Digits
mod Power
mod Shift
unfoldable pub use Digits.*
pub use Power.*
unfoldable pub use Shift.*
