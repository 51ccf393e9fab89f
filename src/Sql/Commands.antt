-- ===== src/Sql/Commands.antt =====
-- crates/pg-kinetic-core/src/protocol/sql.rs: the command that a session follows, from its text.
use pg_kinetic.Prelude.{
  ℕ, zero, suc, ◌-◌, true, false, ◌&&◌, ◌||◌, Option, none, some, List, [], ◌∷◌, leb, ◌==◌,
  if◌then◌else◌, bytes_eq, codes, length,
}
use pg_kinetic.Session.Sql.{SqlCommand, SetScope, session, local}
use pg_kinetic.Session.Transaction.{TransactionAccessMode, read_only, read_write}
use pg_kinetic.Sql.Chars.{
  Text, is_empty, trim, strip_prefix, starts_with, contains, split_once, split_whitespace,
  join_spaces, normalize, to_ascii_lowercase,
}
use pg_kinetic.Sql.Fingerprint.{len_utf8}

-- `trim_end_matches(';')`
unfoldable pub trim_semicolons : Text → Text
trim_semicolons [] = []
trim_semicolons (c ∷ cs) =
    let rest = trim_semicolons cs in if is_empty rest && c == b';' then [] else c ∷ rest

-- `&text[n..]` by a number of bytes; none where the slice panics.
unfoldable pub drop_bytes : ℕ → Text → Option Text
drop_bytes zero s = some s
drop_bytes (suc n) [] = none
drop_bytes (suc n) (c ∷ cs) = elim (leb (len_utf8 c) (suc n)) [
  | true ↦ drop_bytes (suc n - len_utf8 c) cs
  | false ↦ none
]

abbrev pub prefix_len : SetScope → ℕ
prefix_len session = 4
prefix_len local = 10

abbrev set_words : SetScope → List Text → SqlCommand
set_words scope [] = SqlCommand.set scope [] []
set_words scope (key ∷ parts) = SqlCommand.set scope (to_ascii_lowercase key) (join_spaces parts)

unfoldable pub set_rest : SetScope → Text → SqlCommand
set_rest scope rest = elim (split_once (b'=' ∷ []) rest) [
  | none ↦ set_words scope (split_whitespace rest)
  | some found ↦ SqlCommand.set scope (to_ascii_lowercase (trim found.0)) (trim found.1)
]

unfoldable pub parse_set : Text → SetScope → Option SqlCommand
parse_set sql scope = elim (drop_bytes (prefix_len scope) sql) [
  | none ↦ none
  | some rest ↦ some (set_rest scope (trim rest))
]

unfoldable pub parse_begin_transaction : Text → Option TransactionAccessMode
parse_begin_transaction normalized =
    if bytes_eq normalized (codes "begin") || bytes_eq normalized (codes "start transaction")
    then some read_write
    else if bytes_eq normalized (codes "begin read only")
        || bytes_eq normalized (codes "start transaction read only")
    then some read_only
    else if bytes_eq normalized (codes "begin read write")
        || bytes_eq normalized (codes "start transaction read write")
    then some read_write
    else none

unfoldable pub parse_set_transaction : Text → Option TransactionAccessMode
parse_set_transaction normalized =
    if bytes_eq normalized (codes "set transaction read only")
    then some read_only
    else if bytes_eq normalized (codes "set transaction read write")
    then some read_write
    else none

-- `trim_start_matches("reset ")`, on fuel: every round shortens the text.
unfoldable pub trim_resets : ℕ → Text → Text
trim_resets zero s = s
trim_resets (suc f) s = elim (strip_prefix (codes "reset ") s) [
  | none ↦ s
  | some rest ↦ trim_resets f rest
]

-- The tests behind those for a transaction.
unfoldable pub classify_rest : Text → Text → Option SqlCommand
classify_rest trimmed normalized =
    if bytes_eq normalized (codes "commit") || bytes_eq normalized (codes "end")
    then some SqlCommand.commit
    else if bytes_eq normalized (codes "rollback")
    then some SqlCommand.rollback
    else if bytes_eq normalized (codes "discard all")
    then some SqlCommand.discard_all
    else if bytes_eq normalized (codes "discard temp")
        || bytes_eq normalized (codes "discard temporary")
    then some SqlCommand.discard_temp
    else if bytes_eq normalized (codes "discard plans")
    then some SqlCommand.discard_plans
    else if starts_with (codes "set local ") normalized
    then parse_set trimmed local
    else if starts_with (codes "set ") normalized
    then parse_set trimmed session
    else if starts_with (codes "reset ") normalized
    then some (SqlCommand.reset (trim (trim_resets (length normalized) normalized)))
    else if starts_with (codes "create temp ") normalized
        || starts_with (codes "create temporary ") normalized
    then some SqlCommand.create_temp
    else if contains (codes "pg_advisory_lock(") normalized
    then some SqlCommand.advisory_lock
    else if contains (codes "pg_advisory_unlock") normalized
    then some SqlCommand.advisory_unlock
    else if starts_with (codes "copy ") normalized
    then some SqlCommand.copy
    else if starts_with (codes "listen ") normalized
    then some SqlCommand.listen
    else if starts_with (codes "unlisten ") normalized
    then some SqlCommand.unlisten
    else some SqlCommand.query

-- None where it panics.
unfoldable pub classify : Text → Option SqlCommand
classify sql =
    let trimmed = trim (trim_semicolons (trim sql)) in
    let normalized = normalize trimmed in
    elim (parse_begin_transaction normalized) [
      | some mode ↦ some (SqlCommand.begin mode)
      | none ↦ elim (parse_set_transaction normalized) [
        | some mode ↦ some (SqlCommand.set_transaction mode)
        | none ↦ classify_rest trimmed normalized
      ]
    ]
