-- ===== src/Sql/Statements.antt =====
-- crates/pg-kinetic-core/src/protocol/sql_classify.rs: the scanner that knows quotes and comments,
-- and the two loops that are written over it.
pub mod Split
pub mod Joined
use pg_kinetic.Prelude.{
  ℕ, zero, suc, ◌+◌, ◌-◌, Bool, true, false, ◌&&◌, Option, none, some, List, [], ◌∷◌, ◌++◌, ltb,
  length, ◌==◌, if◌then◌else◌,
}
use pg_kinetic.Sql.Chars.{Text, is_empty, trim}

pub data ScanState : Type 0 where
  normal single_quote double_quote line_comment block_comment : ScanState

-- `matches!(iter.peek(), Some((_, c)))`
abbrev pub peeks : ℕ → Text → Bool
peeks c [] = false
peeks c (d ∷ ds) = d == c

-- The state after a character, and whether `iter.next()` takes one more.
abbrev pub Scanned : Type 0
Scanned = ScanState × Bool

unfoldable pub scan_normal : ℕ → Text → Scanned
scan_normal ch rest =
    if ch == b'\''
    then (single_quote, false)
    else if ch == b'"'
    then (double_quote, false)
    else if ch == b'-' && peeks b'-' rest
    then (line_comment, true)
    else if ch == b'/' && peeks b'*' rest
    then (block_comment, true)
    else (normal, false)

abbrev pub scan_quote : ScanState → ℕ → ℕ → Text → Scanned
scan_quote state quote ch rest =
    if ch == quote
    then (if peeks quote rest then (state, true) else (normal, false))
    else (state, false)

unfoldable pub scan : ScanState → ℕ → Text → Scanned
unfolding scan_normal
scan normal ch rest = scan_normal ch rest
scan single_quote ch rest = scan_quote single_quote b'\'' ch rest
scan double_quote ch rest = scan_quote double_quote b'"' ch rest
scan line_comment ch rest = if ch == b'\n' then (normal, false) else (line_comment, false)
scan block_comment ch rest =
    if ch == b'*' && peeks b'/' rest then (normal, true) else (block_comment, false)

abbrev pub in_normal : ScanState → Bool
in_normal normal = true
in_normal _ = false

unfoldable pub visit : Text → List Text → List Text
unfolding trim
visit statement later = if is_empty (trim statement) then later else trim statement ∷ later

-- The text since the last `;` at the top, and the rest; the flag says that a character was taken.
unfoldable pub statements_from : Bool → ScanState → Text → Text → List Text
unfolding scan visit
statements_from taken state statement [] = visit statement []
statements_from true state statement (c ∷ cs) = statements_from false state (statement ++ c ∷ []) cs
statements_from false state statement (c ∷ cs) = elim (in_normal state && c == b';') [
  | true ↦ visit statement (statements_from false normal [] cs)
  | false ↦ let s = scan state c cs in statements_from s.1 s.0 (statement ++ c ∷ []) cs
]

-- What `for_each_top_level_statement` visits, in order.
unfoldable pub split_top_level_statements : Text → List Text
unfolding statements_from
split_top_level_statements sql = statements_from false normal [] sql

unfoldable pub has_multiple_statements : Text → Bool
unfolding split_top_level_statements
has_multiple_statements sql = ltb 1 (length (split_top_level_statements sql))

-- `depth` after a character in the normal state, and whether it closes the first parenthesis.
abbrev pub depth_after : ℕ → ℕ → ℕ × Bool
depth_after c depth =
    if c == b'('
    then (depth + 1, false)
    else if c == b')'
    then (depth - 1, depth - 1 == 0)
    else (depth, false)

abbrev pub depth_in : ScanState → ℕ → ℕ → ℕ × Bool
depth_in normal c depth = depth_after c depth
depth_in _ c depth = (depth, false)

unfoldable pub paren_from : Bool → ScanState → ℕ → Text → Text → Option (Text × Text)
unfolding scan
paren_from taken state depth before [] = none
paren_from true state depth before (c ∷ cs) = paren_from false state depth (before ++ c ∷ []) cs
paren_from false state depth before (c ∷ cs) =
    let d = depth_in state c depth in
    elim d.1 [
      | true ↦ some (before, cs)
      | false ↦ let s = scan state c cs in paren_from s.1 s.0 d.0 (before ++ c ∷ []) cs
    ]

-- What stands before and after the parenthesis whose index is returned.
unfoldable pub find_matching_paren : Text → Option (Text × Text)
unfolding paren_from
find_matching_paren sql = paren_from false normal 0 [] sql
