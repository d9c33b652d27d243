-- ===== src/Text.antt =====
-- Texts as the bytes of a Go string, and what the program uses of package strings. Texts are
-- ASCII: `trim_space` and `to_lower` are those of ASCII texts.
mod Cut
mod Equality
mod Affix
mod Parts
mod Decimal
unfoldable pub use Cut.*
unfoldable pub use Equality.*
pub use Affix.*
pub use Parts.*
unfoldable pub use Decimal.*
