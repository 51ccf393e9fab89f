-- ===== src/Sql/Tests.antt =====
-- The classifier of texts, run on the inputs of crates/pg-kinetic/tests/sql_classification.rs.
use pg_kinetic.Prelude.{◌++◌, ℕ, zero, suc, ◌≡◌, ◌≤◌, refl, some, none, codes, [], ◌∷◌, map}
use pg_kinetic.Routing.{
  write, read_candidate, transaction_control, session_mutation, unknown, routes_to_replica,
}
use pg_kinetic.Session.Sql.{SqlCommand, local}
use pg_kinetic.Sql.Chars.{
  Text, is_whitespace, is_ascii_digit, is_ascii_alphanumeric, trim, strip_prefix, split_once,
  normalize, starts_with, contains,
}
use pg_kinetic.Sql.Classify.Batch.{classify_sql-append}
use pg_kinetic.Sql.Classify.{
  contains_data_modifying_cte_normalized, contains_select_side_effects, is_transaction_control,
  is_session_mutation, is_write_statement, classify_copy, classify_unexplained, explained,
  classify_loop, classify_single_statement, classify_statements, classify_multi_statement,
  classify_sql,
}
use pg_kinetic.Sql.Commands.{
  trim_semicolons, drop_bytes, set_rest, parse_set, parse_begin_transaction, parse_set_transaction,
  classify_rest, classify,
}
use pg_kinetic.Sql.Fingerprint.Shape.{shape, fingerprint_sql-shape, fingerprint_sql-bounded}
use pg_kinetic.Sql.Fingerprint.{max_fingerprint_bytes, len_utf8, len, fingerprint_sql}
use pg_kinetic.Sql.Separators.Skipped.{no_close, any_byte, Separators, nothing, blank, block}
use pg_kinetic.Sql.Separators.{strip_leading_comments_and_whitespace}
use pg_kinetic.Sql.Statements.Joined.{IsStatement, split_top_level_statements-join_statements}
use pg_kinetic.Sql.Statements.Split.{Whole, plain, literal}
use pg_kinetic.Sql.Statements.{split_top_level_statements, find_matching_paren}
use pg_kinetic.Sql.Tokens.{after_quote, span, lex_word, lex, tokens_loop, tokenize_sql}
use pg_kinetic.Sql.Words.{keyword_is, contains_words_ignore_ascii_case}

classes :
    map
      (λ sql. classify_sql (codes sql))
      ("\n\tselect * from t" ∷ "WiTh  x  aS  (uPdAtE t SET a=1) select 1"
        ∷ "EXPLAIN/*comment*/SELECT 1" ∷ "explain (verbose, Analyze) select 1"
        ∷ "COPY accounts TO/*comment*/STDOUT" ∷ "COPY accounts FROM STDIN"
        ∷ "BEGIN; SELECT 1; COMMIT" ∷ "RESET application_name" ∷ "REVOKE SELECT ON t FROM app"
        ∷ "SELECT 1; UPDATE t SET id = 1" ∷ "commit;" ∷ "commit;commit;" ∷ "select 1 for/**/update"
        ∷ [])
    ≡ read_candidate ∷ write ∷ read_candidate ∷ unknown ∷ read_candidate ∷ write ∷ read_candidate
      ∷ session_mutation ∷ write ∷ write ∷ unknown ∷ transaction_control ∷ read_candidate ∷ []
unfolding classify_sql classify_multi_statement classify_statements classify_single_statement
    classify_loop classify_unexplained explained classify_copy is_transaction_control
    is_session_mutation is_write_statement contains_data_modifying_cte_normalized
    contains_select_side_effects keyword_is contains_words_ignore_ascii_case find_matching_paren
    split_top_level_statements strip_leading_comments_and_whitespace normalize starts_with contains
    routes_to_replica
classes = refl

-- A `;` in dollar quotes ends a statement.
dollar_quotes :
    split_top_level_statements (codes "do $$begin commit; end$$")
    ≡ codes "do $$begin commit" ∷ codes "end$$" ∷ []
unfolding split_top_level_statements
dollar_quotes = refl

statements :
    split_top_level_statements (codes "select ';'';' ; /* ; */ x -- ;\n ;;")
    ≡ codes "select ';'';'" ∷ codes "/* ; */ x -- ;" ∷ []
unfolding split_top_level_statements
statements = refl

-- White space and a comment in front of a text.
comments : Separators (codes " /*a*/")
unfolding is_whitespace
comments = blank refl (block (codes "a") (any_byte refl no_close) nothing)

commented : classify_sql (codes " /*a*/" ++ codes "select 1") ≡ classify_sql (codes "select 1")
commented = classify_sql-append (codes "select 1") comments

abbrev quoted_statement : Text
quoted_statement = codes "a=';'"

quoted-Whole : Whole quoted_statement
quoted-Whole =
    plain b'a' (refl, refl, refl, refl, refl)
      (plain b'=' (refl, refl, refl, refl, refl) (literal (codes ";") refl Whole.nothing))

quoted_IsStatement : IsStatement quoted_statement
unfolding trim
quoted_IsStatement = (quoted-Whole, refl, refl)

split_top_level_statements-join_statements_example :
    split_top_level_statements (codes "a=';';a=';'") ≡ quoted_statement ∷ quoted_statement ∷ []
split_top_level_statements-join_statements_example =
    split_top_level_statements-join_statements (quoted_statement ∷ quoted_statement ∷ [])
      (quoted_IsStatement, (quoted_IsStatement, tt))

same_shape :
    shape (tokenize_sql (codes "select 1")) ≡ shape (tokenize_sql (codes "select /* x */ 'y'"))
unfolding tokenize_sql tokens_loop lex lex_word after_quote span is_whitespace is_ascii_digit
    is_ascii_alphanumeric split_once strip_prefix
same_shape = refl

fingerprint_sql-shape_example :
    fingerprint_sql (codes "select 1") ≡ fingerprint_sql (codes "select /* x */ 'y'")
fingerprint_sql-shape_example =
    fingerprint_sql-shape (codes "select 1") (codes "select /* x */ 'y'") same_shape

pub select_fingerprint : fingerprint_sql (codes "select 1") ≡ some (codes "select ?")
unfolding fingerprint_sql tokenize_sql tokens_loop lex lex_word span is_whitespace is_ascii_digit
    is_ascii_alphanumeric
select_fingerprint = refl

fingerprint_sql-bounded_example : len (codes "select ?") ≤ max_fingerprint_bytes
fingerprint_sql-bounded_example =
    fingerprint_sql-bounded (codes "select 1") (codes "select ?") select_fingerprint

-- A text with a character of two bytes behind 255 others.
abbrev long_word : ℕ → Text
long_word zero = 233 ∷ []
long_word (suc n) = b'(' ∷ long_word n

fingerprint_panics : fingerprint_sql (long_word 255) ≡ none
unfolding fingerprint_sql tokenize_sql tokens_loop lex lex_word span is_whitespace is_ascii_digit
    is_ascii_alphanumeric
fingerprint_panics = refl

set_local_misread :
    classify (codes "SET   LOCAL a=1") ≡ some (SqlCommand.set local (codes "l a") (codes "1"))
unfolding classify classify_rest parse_set set_rest drop_bytes parse_begin_transaction
    parse_set_transaction trim_semicolons trim normalize starts_with contains split_once len_utf8
set_local_misread = refl
