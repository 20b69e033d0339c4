-- ===== src/Prelude/Text.antt =====
-- Python's `str`: its code points, its numbers, its parts.
mod Base
mod Digits
mod Decimal
mod Split
unfoldable pub use Base.*
unfoldable pub use Digits.*
unfoldable pub use Decimal.*
unfoldable pub use Split.*
