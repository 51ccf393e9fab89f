-- ===== src/Sql/Tokens.antt =====
-- crates/pg-kinetic-core/src/protocol/sql_classify.rs: the tokens of a text, and what is asked of
-- them.
pub mod Total
use pg_kinetic.Prelude.{
  ℕ, zero, suc, ◌+◌, ◌-◌, Bool, true, false, not, ◌&&◌, ◌||◌, Option, none, some, List, [], ◌∷◌,
  ◌++◌, ◌==◌, if◌then◌else◌, length, drop, codes, bytes_eq,
}
use pg_kinetic.Sql.Chars.{
  Text, is_whitespace, is_ascii_digit, is_ascii_alphanumeric, to_ascii_lowercase,
  eq_ignore_ascii_case, split_once,
}
use pg_kinetic.Sql.Separators.{close_mark}
use pg_kinetic.Sql.Statements.{peeks}

pub data SqlToken : Type 0 where
  comment literal : SqlToken
  word symbol : Text → SqlToken

-- The token that starts at a character, if one does, and what the iterator has left; or the end.
pub data Lexed : Type 0 where
  blank : Text → Lexed
  token : SqlToken → Text → Lexed
  stop : Lexed

abbrev after : Option (Text × Text) → Text
after none = []
after (some found) = found.1

-- Behind the quote that ends a literal; a doubled one does not.
unfoldable pub after_quote : Bool → ℕ → Text → Text
after_quote taken quote [] = []
after_quote true quote (c ∷ cs) = after_quote false quote cs
after_quote false quote (c ∷ cs) = elim (c == quote) [
  | false ↦ after_quote false quote cs
  | true ↦ elim (peeks quote cs) [ true ↦ after_quote true quote cs | false ↦ cs ]
]

-- What stands before and behind the first character that does not belong to the token.
unfoldable pub span : (ℕ → Bool) → Text → Text × Text
span belongs [] = ([], [])
span belongs (c ∷ cs) = elim (belongs c) [
  | false ↦ ([], c ∷ cs)
  | true ↦ let s = span belongs cs in (c ∷ s.0, s.1)
]

abbrev pub in_number : ℕ → Bool
in_number c = is_ascii_alphanumeric c || c == b'.' || c == b'_'

abbrev pub in_word : ℕ → Bool
in_word c = is_ascii_alphanumeric c || c == b'_' || c == b'$'

unfoldable pub all_digits : Text → Bool
all_digits [] = true
all_digits (c ∷ cs) = is_ascii_digit c && all_digits cs

abbrev is_parameter : Text → Bool
is_parameter [] = false
is_parameter (c ∷ cs) = c == b'$' && all_digits cs

abbrev word_token : Text × Text → Lexed
word_token s = if is_parameter s.0 then token literal s.1 else token (word s.0) s.1

-- Behind a literal between two equal dollar delimiters.
unfoldable pub after_dollar : Text → Option Text
after_dollar cs = elim (split_once (b'$' ∷ []) cs) [
  | none ↦ none
  | some tag ↦ elim (split_once (b'$' ∷ (tag.0 ++ b'$' ∷ [])) tag.1) [
    | none ↦ none
    | some body ↦ some body.1
  ]
]

-- Numbers, words and symbols.
unfoldable pub lex_word : ℕ → Text → Lexed
lex_word c cs =
    if is_ascii_digit c
    then token literal (span in_number cs).1
    else if is_ascii_alphanumeric c || c == b'_' || c == b'$'
    then (let s = span in_word cs in word_token (c ∷ s.0, s.1))
    else token (symbol (c ∷ [])) cs

unfoldable pub lex : ℕ → Text → Lexed
lex c cs =
    if is_whitespace c
    then blank cs
    else if c == b'-' && peeks b'-' cs
    then token comment (after (split_once (b'\n' ∷ []) (drop 1 cs)))
    else if c == b'/' && peeks b'*' cs
    then elim (split_once close_mark (drop 1 cs)) [
      | none ↦ stop
      | some found ↦ token comment found.1
    ]
    else if c == b'\'' || c == b'"'
    then token literal (after_quote false c cs)
    else if c == b'$'
    then elim (after_dollar cs) [ none ↦ lex_word c cs | some rest ↦ token literal rest ]
    else lex_word c cs

-- Every round takes a character, so the length of the text is enough fuel.
unfoldable pub tokens_loop : ℕ → Text → List SqlToken
tokens_loop f [] = []
tokens_loop zero (c ∷ cs) = []
tokens_loop (suc f) (c ∷ cs) = elim (lex c cs) [
  | blank rest ↦ tokens_loop f rest
  | token t rest ↦ t ∷ tokens_loop f rest
  | stop ↦ []
]

unfoldable pub tokenize_sql : Text → List SqlToken
tokenize_sql sql = tokens_loop (length sql) sql

-- The first word, in lower case.
unfoldable pub command : List SqlToken → Option Text
command [] = none
command (word w ∷ ts) = some (to_ascii_lowercase w)
command (t ∷ ts) = command ts

abbrev is_one_of : Text → List Text → Bool
is_one_of w [] = false
is_one_of w (v ∷ vs) = bytes_eq w v || is_one_of w vs

abbrev is_definition : Option Text → Bool
is_definition none = false
is_definition (some w) = is_one_of w (
    codes "create"
    ∷ codes "alter"
    ∷ codes "drop"
    ∷ codes "truncate"
    ∷ codes "grant"
    ∷ codes "revoke"
    ∷ codes "comment"
    ∷ [])

unfoldable pub is_ddl : Text → Bool
is_ddl sql = is_definition (command (tokenize_sql sql))

-- The search with its counter of open parentheses.
unfoldable pub contains_word_at : ℕ → List SqlToken → Text → Bool
contains_word_at depth [] target = false
contains_word_at depth (symbol s ∷ ts) target = elim (bytes_eq s (codes "(")) [
  | true ↦ contains_word_at (depth + 1) ts target
  | false ↦ elim (bytes_eq s (codes ")")) [
    | true ↦ contains_word_at (depth - 1) ts target
    | false ↦ contains_word_at depth ts target
  ]
]
contains_word_at depth (word w ∷ ts) target =
    depth == 0 && eq_ignore_ascii_case w target || contains_word_at depth ts target
contains_word_at depth (t ∷ ts) target = contains_word_at depth ts target

unfoldable pub contains_top_level_word : List SqlToken → Text → Bool
contains_top_level_word = contains_word_at 0

abbrev is_unqualified : Option Text → List SqlToken → Bool
is_unqualified none ts = false
is_unqualified (some c) ts =
    if bytes_eq c (codes "delete")
    then contains_top_level_word ts (codes "from")
      && not (contains_top_level_word ts (codes "where"))
    else if bytes_eq c (codes "update")
    then contains_top_level_word ts (codes "set")
      && not (contains_top_level_word ts (codes "where"))
    else false

unfoldable pub is_unqualified_dml : Text → Bool
is_unqualified_dml sql = is_unqualified (command (tokenize_sql sql)) (tokenize_sql sql)
