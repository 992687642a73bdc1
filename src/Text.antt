-- ===== src/Text.antt =====
-- Go's `string` as its bytes, and the functions of package `strings` that the engine calls.
mod Bytes
mod Affix
mod Split
mod Case
mod Sort
mod Space
pub use Bytes.{Text, text, eq_iff, eq_refl, ne-of_false}
unfoldable pub use Bytes.{◌==◌}
pub use Affix.{
  has_prefix-append, has_prefix-eq-append, trim_prefix-append, has_suffix-append,
  trim_suffix-append, trim_suffix-eq-append,
}
unfoldable pub use Affix.{
  has_prefix, has_suffix, trim_prefix, trim_suffix, contains, trim_left, trim_byte, replace_from,
  replace_all,
}
pub use Split.{join-split, split-ne-nil, split-HasNoByte, HasNoByte, split-join, split-append}
unfoldable pub use Split.{split, join}
unfoldable pub use Case.{to_lower}
unfoldable pub use Sort.{text_leb, insert_sorted, sort}
unfoldable pub use Space.{space_len, space_len_back, drop_spaces, trim_space, fields_from, fields}
