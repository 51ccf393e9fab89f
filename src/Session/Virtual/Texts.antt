-- ===== src/Session/Virtual/Texts.antt =====
-- `apply_transaction_sql_with_routing` of
-- crates/pg-kinetic-core/src/protocol/virtual_session.rs: a text of several statements, on a session.
use pg_kinetic.Prelude.{Bool, true, false, ◌&&◌, ◌||◌, Option, none, some, List, [], ◌∷◌}
use pg_kinetic.Routing.{QueryClass, write}
use pg_kinetic.Session.Sql.{SqlCommand}
use pg_kinetic.Session.Transaction.{ReadRoutingTransactionState}
use pg_kinetic.Session.Virtual.{VirtualSession, apply_transaction_command}
use pg_kinetic.Sql.Chars.{Text}
use pg_kinetic.Sql.Classify.{classify_sql}
use pg_kinetic.Sql.Commands.{classify}
use pg_kinetic.Sql.Statements.{split_top_level_statements}

abbrev pub is_write : QueryClass → Bool
is_write write = true
is_write _ = false

abbrev pub is_commit : SqlCommand → Bool
is_commit SqlCommand.commit = true
is_commit _ = false

abbrev pub is_forced : Option ReadRoutingTransactionState → Bool
is_forced none = false
is_forced (some state) = state.primary_forced

-- The loop over the statements, with what it returns; none where `classify` panics.
unfoldable pub apply_statements :
    Bool → List Text → Bool → VirtualSession → Option (Bool × VirtualSession)
apply_statements track [] committed s = some (committed, s)
apply_statements track (statement ∷ rest) committed s = elim (classify statement) [
  | none ↦ none
  | some command ↦
      apply_statements track rest
        (committed || is_commit command && is_forced s.read_routing_transaction)
        (apply_transaction_command command (track && is_write (classify_sql statement)) s)
]

unfoldable pub apply_transaction_sql_with_routing :
    Text → Bool → VirtualSession → Option (Bool × VirtualSession)
apply_transaction_sql_with_routing sql track s =
    apply_statements track (split_top_level_statements sql) false s

abbrev pub session_of : Option (Bool × VirtualSession) → Option VirtualSession
session_of none = none
session_of (some r) = some r.1

unfoldable pub apply_transaction_sql : Text → VirtualSession → Option VirtualSession
apply_transaction_sql sql s = session_of (apply_transaction_sql_with_routing sql true s)
