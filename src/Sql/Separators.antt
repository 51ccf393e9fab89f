-- ===== src/Sql/Separators.antt =====
-- crates/pg-kinetic-core/src/protocol/sql_classify.rs: white space and comments before a token.
pub mod Rounds
pub mod Stripped
pub mod Skipped
use pg_kinetic.Prelude.{
  ℕ, zero, suc, Bool, true, false, not, ◌||◌, Option, none, some, [], ◌∷◌, codes, bytes_eq, length,
}
use pg_kinetic.Sql.Chars.{Text, is_whitespace, trim_start, strip_prefix, starts_with, split_once}

-- One round of the loop: what is left to strip, or the text that is returned.
pub data Round : Type 0 where
  again done : Text → Round

abbrev pub after_line : Option (Text × Text) → Round
after_line none = done []
after_line (some found) = again found.1

abbrev pub line_mark : Text
line_mark = codes "--"

abbrev pub open_mark : Text
open_mark = codes "/*"

abbrev pub close_mark : Text
close_mark = codes "*/"

unfoldable pub strip_comment : Text → Round
unfolding strip_prefix split_once
strip_comment rest = elim (strip_prefix line_mark rest) [
  | some after_comment ↦ after_line (split_once (b'\n' ∷ []) after_comment)
  | none ↦ elim (strip_prefix open_mark rest) [
    | some after_comment ↦ after_line (split_once close_mark after_comment)
    | none ↦ done rest
  ]
]

unfoldable pub strip_round : Text → Round
unfolding strip_comment trim_start
strip_round rest = elim (bytes_eq (trim_start rest) rest) [
  | false ↦ again (trim_start rest)
  | true ↦ strip_comment rest
]

unfoldable pub strip_loop : ℕ → Text → Text
unfolding strip_round
strip_loop zero rest = rest
strip_loop (suc f) rest = elim (strip_round rest) [ again next ↦ strip_loop f next | done s ↦ s ]

-- Every round but the last shortens the text, so its length is enough fuel.
unfoldable pub strip_leading_comments_and_whitespace : Text → Text
unfolding strip_loop
strip_leading_comments_and_whitespace sql = strip_loop (suc (length sql)) sql

abbrev starts_with_whitespace : Text → Bool
starts_with_whitespace [] = false
starts_with_whitespace (c ∷ cs) = is_whitespace c

unfoldable pub starts_with_token_separator : Text → Bool
unfolding starts_with is_whitespace
starts_with_token_separator sql =
    starts_with_whitespace sql || starts_with line_mark sql || starts_with open_mark sql
