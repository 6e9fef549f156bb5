-- ===== src/Text.antt =====
-- Python's `str` as the list of its code points, with the methods that the source calls. `strip` and
-- `lower` are those of ASCII text.
mod Keys
mod Literal
pub use Literal.{codes}
pub use Keys.{text_eq_iff, starts_with-append, separator_eq}
unfoldable pub use Defs.{text_eq, starts_with, contains, strip, lower, upper, split_once, text_lt}
mod Defs
