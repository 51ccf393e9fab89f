-- ===== src/Wire/SqlState.antt =====
-- crates/pg-kinetic-wire/src/sqlstate.rs.
use pg_kinetic.Prelude.{
  ◌≡◌, ◌↔◌, refl, sym, Option, none, some, arith, if◌then◌else◌, Bytes, codes, bytes_eq,
  bytes_eq_iff,
}

pub data SqlState : Type 0 where
  too_many_connections insufficient_privilege query_canceled operator_intervention : SqlState
  cannot_connect_now invalid_sql_statement_name feature_not_supported undefined_table : SqlState
  undefined_column unique_violation : SqlState

unfoldable pub as_str : SqlState → Bytes
as_str too_many_connections = codes "53300"
as_str insufficient_privilege = codes "42501"
as_str query_canceled = codes "57014"
as_str operator_intervention = codes "57000"
as_str cannot_connect_now = codes "57P03"
as_str invalid_sql_statement_name = codes "26000"
as_str feature_not_supported = codes "0A000"
as_str undefined_table = codes "42P01"
as_str undefined_column = codes "42703"
as_str unique_violation = codes "23505"

unfoldable pub parse : Bytes → Option SqlState
parse code =
    if bytes_eq code (codes "53300")
    then some too_many_connections
    else if bytes_eq code (codes "42501")
    then some insufficient_privilege
    else if bytes_eq code (codes "57014")
    then some query_canceled
    else if bytes_eq code (codes "57000")
    then some operator_intervention
    else if bytes_eq code (codes "57P03")
    then some cannot_connect_now
    else if bytes_eq code (codes "26000")
    then some invalid_sql_statement_name
    else if bytes_eq code (codes "0A000")
    then some feature_not_supported
    else if bytes_eq code (codes "42P01")
    then some undefined_table
    else if bytes_eq code (codes "42703")
    then some undefined_column
    else if bytes_eq code (codes "23505")
    then some unique_violation
    else none

-- The text of a state names that state.
pub parse-as_str : (s : SqlState) → parse (as_str s) ≡ some s
unfolding parse as_str
parse-as_str too_many_connections = refl
parse-as_str insufficient_privilege = refl
parse-as_str query_canceled = refl
parse-as_str operator_intervention = refl
parse-as_str cannot_connect_now = refl
parse-as_str invalid_sql_statement_name = refl
parse-as_str feature_not_supported = refl
parse-as_str undefined_table = refl
parse-as_str undefined_column = refl
parse-as_str unique_violation = refl

-- Only the text of a state names it.
pub as_str-parse : (code : Bytes) (s : SqlState) → parse code ≡ some s → as_str s ≡ code
unfolding parse as_str
as_str-parse code s h = ground (
  arith,
  bytes_eq_iff code (codes "53300"),
  bytes_eq_iff code (codes "42501"),
  bytes_eq_iff code (codes "57014"),
  bytes_eq_iff code (codes "57000"),
  bytes_eq_iff code (codes "57P03"),
  bytes_eq_iff code (codes "26000"),
  bytes_eq_iff code (codes "0A000"),
  bytes_eq_iff code (codes "42P01"),
  bytes_eq_iff code (codes "42703"),
  bytes_eq_iff code (codes "23505"),
)

-- A code names a state exactly when it is the text of that state.
pub parse_iff : (code : Bytes) (s : SqlState) → (parse code ≡ some s) ↔ (code ≡ as_str s)
parse_iff code s = (λ e. sym (as_str-parse code s e), λ e. rw e (parse-as_str s))
