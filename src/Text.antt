-- ===== src/Text.antt =====
-- Go strings as byte sequences, and the functions of the package `strings` that the bridge calls.
mod Equal
mod Trim
mod Case
mod Split
mod Decimal
mod Fields
mod Numbers
mod Printed
unfoldable pub use Equal.*
unfoldable pub use Trim.*
unfoldable pub use Case.*
unfoldable pub use Split.*
unfoldable pub use Decimal.*
unfoldable pub use Fields.*
unfoldable pub use Numbers.*
unfoldable pub use Printed.*
