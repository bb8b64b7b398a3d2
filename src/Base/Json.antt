-- ===== src/Base/Json.antt =====
-- `JSON.stringify` of an array of texts, and of a number: what the source uses of it to build keys.
-- A text is its code points, so a lone surrogate is one between 0xD800 and 0xDFFF.
mod Digits
mod Quoting
mod Reading
unfoldable pub use Digits.{digits, print_nat, value}
pub use Digits.{print_nat_inj, value-print_nat, value-le}
unfoldable pub use Quoting.{quote, quote_list}
pub use Reading.{quote_inj, quote_list_inj}
