-- ===== src/Session/Sql.antt =====
-- crates/pg-kinetic-core/src/protocol/sql.rs: the commands that a session follows. Sql/Commands
-- reads them from a text.
use pg_kinetic.Prelude.{Bytes}
use pg_kinetic.Session.Transaction.{TransactionAccessMode}

pub data SetScope : Type 0 where
  session local : SetScope

pub data SqlCommand : Type 0 where
  begin : TransactionAccessMode → SqlCommand
  commit rollback : SqlCommand
  set_transaction : TransactionAccessMode → SqlCommand
  set : SetScope → Bytes → Bytes → SqlCommand
  reset : Bytes → SqlCommand
  discard_all discard_temp discard_plans create_temp advisory_lock advisory_unlock : SqlCommand
  copy listen unlisten query : SqlCommand
