-- ===== src/Base/Strings.antt =====
-- Go's `string`, as its code points (valid UTF-8), and what the program uses of the packages
-- `strings`, `strconv` and `unicode`. `len` counts bytes, so each code point has its UTF-8 width.
-- The lower case of a code point above 127 is Unicode's table, the parameter `lower`.
mod Equality
mod Search
mod Number
mod Path
mod Pattern
unfoldable pub use Equality.*
unfoldable pub use Search.*
unfoldable pub use Number.*
unfoldable pub use Path.*
unfoldable pub use Pattern.*
