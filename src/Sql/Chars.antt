-- ===== src/Sql/Chars.antt =====
-- What crates/pg-kinetic-core/src/protocol/sql_classify.rs and sql.rs use of `str` and `char`. In
-- the modules of Sql a text is the list of its characters, where Rust has UTF-8 bytes: offsets and
-- slices are the parts of the list, and the numbers of bytes never matter to the result.
use pg_kinetic.Prelude.{
  ℕ, ◌+◌, Bool, true, false, ◌&&◌, ◌||◌, Option, none, some, List, [], ◌∷◌, ◌++◌, map, leb, ◌==◌,
  if◌then◌else◌, bytes_eq,
}

abbrev pub Text : Type 0
Text = List ℕ

abbrev pub is_empty : Text → Bool
is_empty [] = true
is_empty (c ∷ cs) = false

abbrev between : ℕ → ℕ → ℕ → Bool
between low high c = leb low c && leb c high

-- `char::is_whitespace`: Unicode's White_Space.
unfoldable pub is_whitespace : ℕ → Bool
is_whitespace c =
    between 9 13 c
    || c == 32
    || c == 133
    || c == 160
    || c == 5760
    || between 8192 8202 c
    || c == 8232
    || c == 8233
    || c == 8239
    || c == 8287
    || c == 12288

-- `char::is_ascii_digit` and `char::is_ascii_alphanumeric`.
unfoldable pub is_ascii_digit : ℕ → Bool
is_ascii_digit = between 48 57

unfoldable pub is_ascii_alphanumeric : ℕ → Bool
unfolding is_ascii_digit
is_ascii_alphanumeric c = is_ascii_digit c || between 65 90 c || between 97 122 c

-- `to_ascii_lowercase`, of a character and of a text.
abbrev lower : ℕ → ℕ
lower c = if between 65 90 c then c + 32 else c

unfoldable pub to_ascii_lowercase : Text → Text
to_ascii_lowercase = map lower

unfoldable pub eq_ignore_ascii_case : Text → Text → Bool
unfolding to_ascii_lowercase
eq_ignore_ascii_case a b = bytes_eq (to_ascii_lowercase a) (to_ascii_lowercase b)

unfoldable pub trim_start : Text → Text
unfolding is_whitespace
trim_start [] = []
trim_start (c ∷ cs) = if is_whitespace c then trim_start cs else c ∷ cs

unfoldable pub trim_end : Text → Text
unfolding is_whitespace
trim_end [] = []
trim_end (c ∷ cs) =
    let rest = trim_end cs in if is_empty rest && is_whitespace c then [] else c ∷ rest

unfoldable pub trim : Text → Text
unfolding trim_start trim_end
trim s = trim_end (trim_start s)

-- What follows the prefix.
unfoldable pub strip_prefix : Text → Text → Option Text
strip_prefix [] s = some s
strip_prefix (p ∷ ps) [] = none
strip_prefix (p ∷ ps) (c ∷ cs) = if p == c then strip_prefix ps cs else none

unfoldable pub starts_with : Text → Text → Bool
starts_with [] s = true
starts_with (p ∷ ps) [] = false
starts_with (p ∷ ps) (c ∷ cs) = p == c && starts_with ps cs

-- What stands before and after the first place where the pattern is found.
unfoldable pub split_once : Text → Text → Option (Text × Text)
unfolding strip_prefix
split_once p [] = elim (strip_prefix p []) [ none ↦ none | some after ↦ some ([], after) ]
split_once p (c ∷ cs) = elim (strip_prefix p (c ∷ cs)) [
  | some after ↦ some ([], after)
  | none ↦ elim (split_once p cs) [ some found ↦ some (c ∷ found.0, found.1) | none ↦ none ]
]

-- `str::contains` with a text.
unfoldable pub contains : Text → Text → Bool
unfolding starts_with
contains p [] = starts_with p []
contains p (c ∷ cs) = starts_with p (c ∷ cs) || contains p cs

abbrev push_word : Text → List Text → List Text
push_word [] ws = ws
push_word (c ∷ cs) ws = (c ∷ cs) ∷ ws

-- `split_whitespace` on what is left, behind the letters of a word that has begun.
unfoldable words : Text → Text → List Text
unfolding is_whitespace
words word [] = push_word word []
words word (c ∷ cs) =
    if is_whitespace c then push_word word (words [] cs) else words (word ++ c ∷ []) cs

unfoldable pub split_whitespace : Text → List Text
unfolding words
split_whitespace = words []

-- `join(" ")`.
unfoldable pub join_spaces : List Text → Text
join_spaces [] = []
join_spaces (w ∷ []) = w
join_spaces (w ∷ v ∷ ws) = w ++ 32 ∷ join_spaces (v ∷ ws)

-- `normalize`
unfoldable pub normalize : Text → Text
unfolding split_whitespace join_spaces to_ascii_lowercase
normalize s = to_ascii_lowercase (join_spaces (split_whitespace s))
