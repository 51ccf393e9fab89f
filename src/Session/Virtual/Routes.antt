-- ===== src/Session/Virtual/Routes.antt =====
-- Where the statements of a transaction go (crates/pg-kinetic-core/src/protocol/virtual_session.rs).
use pg_kinetic.Prelude.{Bool, true, false, Option, none, some, List, [], ◌∷◌, ◌≡◌, arith, All}
use mathlib.Core.Option
use pg_kinetic.Routing.{BackendRole}
use pg_kinetic.Session.Sql.{SqlCommand}
use pg_kinetic.Session.Transaction.{
  TransactionAccessMode, read_write, ReadRoutingTransactionState, set_access_mode_forced,
  force_primary_forced, forced-primary,
}
use pg_kinetic.Session.Virtual.{
  VirtualSession, in_transaction, apply_sql, apply_transaction_command, mark_ready_after_copy,
  mark_failed_transaction, mark_unknown_protocol_state, mark_transaction_write,
  set_read_after_write_required, set_read_after_write_unknown, clear_read_after_write,
  set_transaction_access_mode, or_new, current_transaction_target_role,
}
use pg_kinetic.Session.Virtual.Shards.{
  set_transaction_shard_affinity, mark_transaction_cross_shard_violation,
  clear_transaction_shard_affinity, apply_transaction_shard_affinity,
}
use pg_kinetic.Session.Virtual.Events.{
  Event, sql, transaction_command, write, failed_statement, request_shard, step, run, IsRouted,
  step-IsRouted, AllFresh,
}

-- The commands at which a transaction begins or ends.
abbrev pub is_boundary_command : SqlCommand → Bool
is_boundary_command (SqlCommand.begin _) = true
is_boundary_command SqlCommand.commit = true
is_boundary_command SqlCommand.rollback = true
is_boundary_command SqlCommand.discard_all = true
is_boundary_command _ = false

abbrev pub is_boundary : Event → Bool
is_boundary (sql command) = is_boundary_command command
is_boundary (transaction_command command _) = is_boundary_command command
is_boundary _ = false

-- The transaction has written.
abbrev pub IsForced : Option ReadRoutingTransactionState → Type 0
IsForced none = ⊥
IsForced (some r) = r.primary_forced ≡ true

abbrev pub HasWritten : VirtualSession → Type 0
HasWritten s = IsForced s.read_routing_transaction

set_mode-HasWritten :
    (mode : TransactionAccessMode) (s : VirtualSession)
    → HasWritten s
    → HasWritten (set_transaction_access_mode mode s)
unfolding set_transaction_access_mode
set_mode-HasWritten mode s h =
    ground (arith, h, set_access_mode_forced mode (or_new s.read_routing_transaction mode))

write-HasWritten : (s : VirtualSession) → HasWritten s → HasWritten (mark_transaction_write s)
unfolding mark_transaction_write
write-HasWritten s h =
    ground (arith, h, force_primary_forced (or_new s.read_routing_transaction read_write))

sql-HasWritten :
    (command : SqlCommand) (s : VirtualSession)
    → is_boundary_command command ≡ false
    → HasWritten s
    → HasWritten (apply_sql command s)
unfolding apply_sql
sql-HasWritten (SqlCommand.set_transaction mode) s b h = set_mode-HasWritten mode s h
sql-HasWritten _ s b h = ground (arith, h)

pub command-HasWritten :
    (command : SqlCommand) (is_write : Bool) (s : VirtualSession)
    → is_boundary_command command ≡ false
    → HasWritten s
    → HasWritten (apply_transaction_command command is_write s)
unfolding apply_transaction_command
command-HasWritten (SqlCommand.set_transaction mode) true s b h =
    write-HasWritten _ (set_mode-HasWritten mode s h)
command-HasWritten (SqlCommand.set_transaction mode) false s b h = set_mode-HasWritten mode s h
command-HasWritten (SqlCommand.begin mode) is_write s b h = absurd (ground arith)
command-HasWritten SqlCommand.commit is_write s b h = absurd (ground arith)
command-HasWritten SqlCommand.rollback is_write s b h = absurd (ground arith)
command-HasWritten SqlCommand.discard_all is_write s b h = absurd (ground arith)
command-HasWritten _ true s b h = write-HasWritten s h
command-HasWritten _ false s b h = h

step-HasWritten :
    (e : Event) (s : VirtualSession) → is_boundary e ≡ false → HasWritten s → HasWritten (step e s)
unfolding step mark_failed_transaction mark_ready_after_copy mark_unknown_protocol_state
    set_transaction_shard_affinity mark_transaction_cross_shard_violation
    clear_transaction_shard_affinity apply_transaction_shard_affinity set_read_after_write_required
    set_read_after_write_unknown clear_read_after_write
step-HasWritten (sql command) s b h = sql-HasWritten command s b h
step-HasWritten (transaction_command command is_write) s b h =
    command-HasWritten command is_write s b h
step-HasWritten write s b h = write-HasWritten s h
step-HasWritten failed_statement s b h = write-HasWritten s h
step-HasWritten (request_shard none reason policy) s b h = ground (arith, h)
step-HasWritten (request_shard (some id) reason policy) s b h = ground (arith, h)
step-HasWritten _ s b h = h

run-HasWritten :
    (es : List Event) (s : VirtualSession)
    → All (λ e. is_boundary e ≡ false) es
    → HasWritten s
    → HasWritten (run es s)
unfolding run
run-HasWritten [] s b h = h
run-HasWritten (e ∷ es) s b h = run-HasWritten es (step e s) b.1 (step-HasWritten e s b.0 h)

run-keeps : (es : List Event) (s : VirtualSession) → IsRouted s → IsRouted (run es s)
unfolding run
run-keeps [] s h = h
run-keeps (e ∷ es) s h = run-keeps es (step e s) (step-IsRouted e s h)

pub written_role :
    (s : VirtualSession)
    → IsRouted s
    → HasWritten s
    → current_transaction_target_role s ≡ some BackendRole.primary
unfolding current_transaction_target_role
written_role s r h = role s.read_routing_transaction r.fresh h
  where
    role :
        (o : Option ReadRoutingTransactionState)
        → AllFresh o
        → IsForced o
        → Option.map (λ (r : ReadRoutingTransactionState). r.target_role) o
          ≡ some BackendRole.primary
    role none f h = absurd h
    role (some r) f h = rw (forced-primary r f h)

pub first_write :
    (s : VirtualSession) → s.transaction ≡ in_transaction → HasWritten (mark_transaction_write s)
unfolding mark_transaction_write
first_write s e =
    ground (arith, force_primary_forced (or_new s.read_routing_transaction read_write))

-- Once an open transaction with its routing in force has written, it goes to the primary until it
-- begins anew or ends, whatever is called before that: also after it is declared read only or fails.
pub written_stays_primary :
    (es : List Event) (s : VirtualSession)
    → IsRouted s
    → s.transaction ≡ in_transaction
    → All (λ e. is_boundary e ≡ false) es
    → current_transaction_target_role (run (write ∷ es) s) ≡ some BackendRole.primary
unfolding run step
written_stays_primary es s r inside b =
    written_role (run es (mark_transaction_write s))
      (run-keeps es (mark_transaction_write s) (step-IsRouted write s r))
      (run-HasWritten es (mark_transaction_write s) b (first_write s inside))
