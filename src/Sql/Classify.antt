-- ===== src/Sql/Classify.antt =====
-- crates/pg-kinetic-core/src/protocol/sql_classify.rs: the class of a text.
pub mod Plain
pub mod Reads
pub mod Batch
use pg_kinetic.Prelude.{
  ℕ, zero, suc, Bool, true, false, not, ◌&&◌, ◌||◌, Option, none, some, List, [], ◌∷◌, drop, length,
  if◌then◌else◌, codes, bytes_eq,
}
use pg_kinetic.Routing.{
  QueryClass, write, read_only, read_candidate, transaction_control, session_mutation, unknown,
  routes_to_replica,
}
use pg_kinetic.Sql.Chars.{Text, is_empty, starts_with, contains, normalize}
use pg_kinetic.Sql.Separators.{strip_leading_comments_and_whitespace}
use pg_kinetic.Sql.Statements.{split_top_level_statements, find_matching_paren}
use pg_kinetic.Sql.Words.{
  keyword_is, keyword_is_exact, keyword_is_followed_by_more, starts_with_words_ignore_ascii_case,
  contains_words_ignore_ascii_case,
}

unfoldable pub contains_data_modifying_cte_normalized : Text → Bool
unfolding starts_with contains
contains_data_modifying_cte_normalized normalized =
    (starts_with (codes "with ") normalized || bytes_eq normalized (codes "with"))
    && (contains (codes " as (insert") normalized
        || contains (codes " as (update") normalized
        || contains (codes " as (delete") normalized
        || contains (codes " as (merge") normalized)

unfoldable pub contains_data_modifying_cte : Text → Bool
unfolding contains_data_modifying_cte_normalized normalize strip_leading_comments_and_whitespace
contains_data_modifying_cte sql =
    contains_data_modifying_cte_normalized (normalize (strip_leading_comments_and_whitespace sql))

unfoldable pub contains_select_side_effects : Text → Bool
unfolding contains
contains_select_side_effects normalized =
    contains (codes " into ") normalized
    || contains (codes " for update") normalized
    || contains (codes " for no key update") normalized
    || contains (codes " for share") normalized
    || contains (codes " for key share") normalized
    || contains (codes " lock in share mode") normalized
    || contains (codes "pg_advisory_lock(") normalized
    || contains (codes "pg_try_advisory_lock(") normalized
    || contains (codes "set_config(") normalized

unfoldable pub is_transaction_control : Text → Bool
unfolding keyword_is_exact keyword_is_followed_by_more starts_with_words_ignore_ascii_case
is_transaction_control sql =
    starts_with_words_ignore_ascii_case sql (codes "begin" ∷ [])
    || keyword_is_exact sql (codes "commit")
    || keyword_is_exact sql (codes "rollback")
    || keyword_is_exact sql (codes "abort")
    || keyword_is_exact sql (codes "end")
    || starts_with_words_ignore_ascii_case sql (codes "start" ∷ codes "transaction" ∷ [])
    || starts_with_words_ignore_ascii_case sql (codes "set" ∷ codes "transaction" ∷ [])
    || keyword_is_followed_by_more sql (codes "savepoint")
    || starts_with_words_ignore_ascii_case sql (codes "release" ∷ codes "savepoint" ∷ [])
    || starts_with_words_ignore_ascii_case sql (codes "rollback" ∷ codes "to" ∷ [])

unfoldable pub is_session_mutation : Text → Bool
unfolding keyword_is_followed_by_more
is_session_mutation sql =
    keyword_is_followed_by_more sql (codes "set")
    || keyword_is_followed_by_more sql (codes "reset")
    || keyword_is_followed_by_more sql (codes "discard")
    || keyword_is_followed_by_more sql (codes "listen")
    || keyword_is_followed_by_more sql (codes "unlisten")
    || keyword_is_followed_by_more sql (codes "notify")
    || keyword_is_followed_by_more sql (codes "lock")
    || keyword_is_followed_by_more sql (codes "declare")

unfoldable pub is_write_statement : Text → Bool
unfolding keyword_is
is_write_statement sql =
    keyword_is sql (codes "insert")
    || keyword_is sql (codes "update")
    || keyword_is sql (codes "delete")
    || keyword_is sql (codes "merge")
    || keyword_is sql (codes "truncate")
    || keyword_is sql (codes "create")
    || keyword_is sql (codes "alter")
    || keyword_is sql (codes "drop")
    || keyword_is sql (codes "call")
    || keyword_is sql (codes "do")
    || keyword_is sql (codes "vacuum")
    || keyword_is sql (codes "analyze")
    || keyword_is sql (codes "reindex")
    || keyword_is sql (codes "grant")
    || keyword_is sql (codes "revoke")

unfoldable pub classify_copy : Text → QueryClass
classify_copy sql =
    if contains_words_ignore_ascii_case sql (codes "from" ∷ codes "stdin" ∷ [])
    then write
    else if contains_words_ignore_ascii_case sql (codes "to" ∷ codes "stdout" ∷ [])
    then read_candidate
    else write

-- The tests of `classify_single_statement` behind that for `explain`.
unfoldable pub classify_unexplained : Text → QueryClass
classify_unexplained sql =
    if keyword_is sql (codes "with")
    then (if contains_data_modifying_cte_normalized (normalize sql) then write else unknown)
    else if is_transaction_control sql
    then transaction_control
    else if is_session_mutation sql
    then session_mutation
    else if keyword_is sql (codes "copy")
    then classify_copy sql
    else if keyword_is sql (codes "select")
    then (if contains_data_modifying_cte_normalized (normalize sql)
          || contains_select_side_effects (normalize sql)
        then write
        else read_candidate)
    else if keyword_is sql (codes "values") || keyword_is sql (codes "table")
    then read_candidate
    else if keyword_is sql (codes "show")
    then read_candidate
    else if is_write_statement sql
    then write
    else unknown

-- The statement that an `explain` stands before, when it is not run.
unfoldable pub explained : Text → Option Text
explained sql =
    let rest = strip_leading_comments_and_whitespace (drop 7 sql) in
    elim (starts_with (codes "(") rest) [
      | true ↦ elim (find_matching_paren rest) [
        | none ↦ none
        | some found ↦ elim (contains (codes "analyze") (normalize (drop 1 found.0))) [
          | true ↦ none
          | false ↦ some (strip_leading_comments_and_whitespace found.1)
        ]
      ]
      | false ↦ elim (starts_with (codes "analyze") (normalize rest)) [
        | true ↦ none
        | false ↦ some rest
      ]
    ]

-- `classify_single_statement`, with the body of `classify_explain` where it calls it. Every round
-- drops the word `explain`, so the length of the text is enough fuel.
unfoldable pub classify_loop : ℕ → Text → QueryClass
classify_loop zero text = unknown
classify_loop (suc f) text =
    let sql = strip_leading_comments_and_whitespace text in
    elim (is_empty sql) [
      | true ↦ unknown
      | false ↦ elim (keyword_is sql (codes "explain")) [
        | false ↦ classify_unexplained sql
        | true ↦ elim (explained sql) [
          | none ↦ unknown
          | some rest ↦
              let target = classify_loop f rest in
              if routes_to_replica target then read_candidate else unknown
        ]
      ]
    ]

unfoldable pub classify_single_statement : Text → QueryClass
classify_single_statement sql = classify_loop (suc (length sql)) sql

-- The loop, with `saw_read_candidate`.
unfoldable pub classify_statements : Bool → List Text → QueryClass
classify_statements saw [] = if saw then read_candidate else transaction_control
classify_statements saw (s ∷ ss) = elim (classify_single_statement s) [
  | read_candidate ↦ classify_statements true ss
  | read_only ↦ classify_statements true ss
  | transaction_control ↦ classify_statements saw ss
  | other ↦ other
]

unfoldable pub classify_multi_statement : List Text → QueryClass
classify_multi_statement = classify_statements false

abbrev pub several : List Text → Bool
several (a ∷ b ∷ rest) = true
several _ = false

unfoldable pub classify_sql : Text → QueryClass
classify_sql text =
    let sql = strip_leading_comments_and_whitespace text in
    if is_empty sql
    then unknown
    else if several (split_top_level_statements sql)
    then classify_multi_statement (split_top_level_statements sql)
    else classify_single_statement sql
