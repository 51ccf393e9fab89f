-- ===== src/Sql/Words.antt =====
-- crates/pg-kinetic-core/src/protocol/sql_classify.rs: the tests on the words of a statement.
use pg_kinetic.Prelude.{
  ℕ, zero, suc, Bool, true, false, ◌&&◌, ◌||◌, Option, none, some, List, [], ◌∷◌, length, take,
  drop, ltb, if◌then◌else◌,
}
use pg_kinetic.Sql.Chars.{Text, is_empty, eq_ignore_ascii_case}
use pg_kinetic.Sql.Separators.{strip_leading_comments_and_whitespace, starts_with_token_separator}

-- `text.get(..word.len())` is there and equals the word, and then what follows it.
unfoldable pub after_word : Text → Text → Option Text
unfolding eq_ignore_ascii_case
after_word word rest =
    if ltb (length rest) (length word)
    then none
    else if eq_ignore_ascii_case (take (length word) rest) word
    then some (drop (length word) rest)
    else none

unfoldable pub starts_with_words_ignore_ascii_case : Text → List Text → Bool
unfolding after_word strip_leading_comments_and_whitespace starts_with_token_separator
starts_with_words_ignore_ascii_case rest [] = true
starts_with_words_ignore_ascii_case rest (w ∷ []) =
    elim (after_word w (strip_leading_comments_and_whitespace rest)) [
      | none ↦ false
      | some after ↦ is_empty after || starts_with_token_separator after
    ]
starts_with_words_ignore_ascii_case rest (w ∷ v ∷ ws) =
    elim (after_word w (strip_leading_comments_and_whitespace rest)) [
      | none ↦ false
      | some after ↦
          starts_with_token_separator after && starts_with_words_ignore_ascii_case after (v ∷ ws)
    ]

unfoldable pub keyword_is : Text → Text → Bool
unfolding starts_with_words_ignore_ascii_case
keyword_is sql keyword = starts_with_words_ignore_ascii_case sql (keyword ∷ [])

unfoldable pub keyword_is_exact : Text → Text → Bool
unfolding after_word strip_leading_comments_and_whitespace
keyword_is_exact sql keyword =
    elim (after_word keyword (strip_leading_comments_and_whitespace sql)) [
      | none ↦ false
      | some after ↦ is_empty (strip_leading_comments_and_whitespace after)
    ]

abbrev is_not_empty : Text → Bool
is_not_empty [] = false
is_not_empty (c ∷ cs) = true

unfoldable pub keyword_is_followed_by_more : Text → Text → Bool
unfolding after_word strip_leading_comments_and_whitespace starts_with_token_separator
keyword_is_followed_by_more sql keyword =
    elim (after_word keyword (strip_leading_comments_and_whitespace sql)) [
      | none ↦ false
      | some after ↦
          starts_with_token_separator after
          && is_not_empty (strip_leading_comments_and_whitespace after)
    ]

-- The text from its first separator on.
unfoldable pub find_token_separator : Text → Option Text
unfolding starts_with_token_separator
find_token_separator [] = none
find_token_separator (c ∷ cs) = elim (starts_with_token_separator (c ∷ cs)) [
  | true ↦ some (c ∷ cs)
  | false ↦ find_token_separator cs
]

abbrev unwrap_or_end : Option Text → Text
unwrap_or_end none = []
unwrap_or_end (some rest) = rest

-- The loop on what is left of the text, whose length is enough fuel.
unfoldable pub contains_words_loop : ℕ → Text → List Text → Bool
unfolding starts_with_words_ignore_ascii_case find_token_separator
contains_words_loop zero sql words = false
contains_words_loop (suc f) sql words = elim (strip_leading_comments_and_whitespace sql) [
  | [] ↦ false
  | c ∷ cs ↦ elim (starts_with_words_ignore_ascii_case (c ∷ cs) words) [
    | true ↦ true
    | false ↦ contains_words_loop f (unwrap_or_end (find_token_separator (c ∷ cs))) words
  ]
]

unfoldable pub contains_words_ignore_ascii_case : Text → List Text → Bool
unfolding contains_words_loop
contains_words_ignore_ascii_case sql [] = true
contains_words_ignore_ascii_case sql (w ∷ ws) = contains_words_loop (suc (length sql)) sql (w ∷ ws)
