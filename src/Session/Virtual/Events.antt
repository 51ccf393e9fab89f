-- ===== src/Session/Virtual/Events.antt =====
-- Every method that changes a session (crates/pg-kinetic-core/src/protocol/virtual_session.rs), and
-- what holds between any two calls.
use pg_kinetic.Prelude.{
  ℕ, Bool, true, false, Option, none, some, List, [], ◌∷◌, is_some, ◌≡◌, arith,
}
use pg_kinetic.Routing.{RoutingReason, MultiShardPolicy, ShardId}
use pg_kinetic.Session.Sql.{SqlCommand}
use pg_kinetic.Session.Transaction.{
  TransactionAccessMode, read_write, ReadRoutingTransactionState, IsFresh, set_access_mode-IsFresh,
  force_primary-IsFresh, read_routing_new-IsFresh,
}
use pg_kinetic.Session.Virtual.{
  VirtualSession, idle, in_transaction, default, apply_sql, apply_transaction_command,
  mark_ready_after_copy, mark_failed_transaction, mark_unknown_protocol_state,
  mark_transaction_write, set_read_after_write_required, set_read_after_write_unknown,
  clear_read_after_write, set_transaction_access_mode, or_new,
}
use pg_kinetic.Session.Virtual.Shards.{
  set_transaction_shard_affinity, mark_transaction_cross_shard_violation,
  clear_transaction_shard_affinity, apply_transaction_shard_affinity,
}

pub data Event : Type 0 where
  sql : SqlCommand → Event
  transaction_command : SqlCommand → Bool → Event
  write failed_statement ready_after_copy unknown_protocol : Event
  pin_shard : ShardId → RoutingReason → Event
  request_shard : Option ShardId → RoutingReason → MultiShardPolicy → Event
  violate_shard clear_shard : Event
  require_read_after_write : ℕ → Event
  unknown_read_after_write no_read_after_write : Event

unfoldable pub step : Event → VirtualSession → VirtualSession
step (sql command) s = apply_sql command s
step (transaction_command command is_write) s = apply_transaction_command command is_write s
step write s = mark_transaction_write s
step failed_statement s = mark_failed_transaction s
step ready_after_copy s = mark_ready_after_copy s
step unknown_protocol s = mark_unknown_protocol_state s
step (pin_shard id reason) s = set_transaction_shard_affinity id reason s
step (request_shard id reason policy) s = (apply_transaction_shard_affinity id reason policy s).0
step violate_shard s = mark_transaction_cross_shard_violation s
step clear_shard s = clear_transaction_shard_affinity s
step (require_read_after_write lsn) s = set_read_after_write_required lsn s
step unknown_read_after_write s = set_read_after_write_unknown s
step no_read_after_write s = clear_read_after_write s

unfoldable pub run : List Event → VirtualSession → VirtualSession
unfolding step
run [] s = s
run (e ∷ es) s = run es (step e s)

-- A routing state that `refresh` would leave as it is.
abbrev pub AllFresh : Option ReadRoutingTransactionState → Type 0
AllFresh none = Unit {0}
AllFresh (some r) = IsFresh r

-- The routing of a transaction is there while it is open, and gone when there is none.
pub record IsRouted (s : VirtualSession) : Type 0 where
  pub idle_unrouted : s.transaction ≡ idle → s.read_routing_transaction ≡ none
  pub open_routed : s.transaction ≡ in_transaction → is_some s.read_routing_transaction ≡ true
  pub fresh : AllFresh s.read_routing_transaction

set_mode-IsRouted :
    (mode : TransactionAccessMode) (s : VirtualSession)
    → IsRouted s
    → IsRouted (set_transaction_access_mode mode s)
unfolding set_transaction_access_mode
set_mode-IsRouted mode s h =
    ground (arith, h, set_access_mode-IsFresh mode (or_new s.read_routing_transaction mode))

write-IsRouted : (s : VirtualSession) → IsRouted s → IsRouted (mark_transaction_write s)
unfolding mark_transaction_write
write-IsRouted s h =
    ground (arith, h, force_primary-IsFresh (or_new s.read_routing_transaction read_write))

failed-IsRouted : (s : VirtualSession) → IsRouted s → IsRouted (mark_failed_transaction s)
unfolding mark_failed_transaction
failed-IsRouted s h =
    let w = write-IsRouted s h in
    record { idle_unrouted = λ e. cc; open_routed = λ e. cc; fresh = w.fresh }

apply_sql-IsRouted :
    (command : SqlCommand) (s : VirtualSession) → IsRouted s → IsRouted (apply_sql command s)
unfolding apply_sql
apply_sql-IsRouted (SqlCommand.begin mode) s h = ground (arith, read_routing_new-IsFresh mode)
apply_sql-IsRouted (SqlCommand.set_transaction mode) s h = set_mode-IsRouted mode s h
apply_sql-IsRouted _ s h = ground (arith, h)

pub command-IsRouted :
    (command : SqlCommand) (is_write : Bool) (s : VirtualSession)
    → IsRouted s
    → IsRouted (apply_transaction_command command is_write s)
unfolding apply_transaction_command apply_sql
command-IsRouted (SqlCommand.begin mode) true s h =
    write-IsRouted _ (apply_sql-IsRouted (SqlCommand.begin mode) s h)
command-IsRouted SqlCommand.commit true s h =
    write-IsRouted _ (apply_sql-IsRouted SqlCommand.commit s h)
command-IsRouted SqlCommand.rollback true s h =
    write-IsRouted _ (apply_sql-IsRouted SqlCommand.rollback s h)
command-IsRouted (SqlCommand.set_transaction mode) true s h =
    write-IsRouted _ (set_mode-IsRouted mode s h)
command-IsRouted _ true s h = write-IsRouted s h
command-IsRouted (SqlCommand.begin mode) false s h = apply_sql-IsRouted (SqlCommand.begin mode) s h
command-IsRouted SqlCommand.commit false s h = apply_sql-IsRouted SqlCommand.commit s h
command-IsRouted SqlCommand.rollback false s h = apply_sql-IsRouted SqlCommand.rollback s h
command-IsRouted (SqlCommand.set_transaction mode) false s h = set_mode-IsRouted mode s h
command-IsRouted _ false s h = h

request-IsRouted :
    (id : Option ShardId) (reason : RoutingReason) (policy : MultiShardPolicy) (s : VirtualSession)
    → IsRouted s
    → IsRouted (apply_transaction_shard_affinity id reason policy s).0
unfolding apply_transaction_shard_affinity
request-IsRouted none reason policy s h = ground (arith, h)
request-IsRouted (some id) reason policy s h = ground (arith, h)

-- Every method keeps the routing of the transaction in step with its state.
pub step-IsRouted : (e : Event) (s : VirtualSession) → IsRouted s → IsRouted (step e s)
unfolding step mark_ready_after_copy mark_unknown_protocol_state set_transaction_shard_affinity
    mark_transaction_cross_shard_violation clear_transaction_shard_affinity
    set_read_after_write_required set_read_after_write_unknown clear_read_after_write
step-IsRouted (sql command) s h = apply_sql-IsRouted command s h
step-IsRouted (transaction_command command is_write) s h = command-IsRouted command is_write s h
step-IsRouted write s h = write-IsRouted s h
step-IsRouted failed_statement s h = failed-IsRouted s h
step-IsRouted (request_shard id reason policy) s h = request-IsRouted id reason policy s h
step-IsRouted ready_after_copy s h = ground (arith, h)
step-IsRouted unknown_protocol s h = ground (arith, h)
step-IsRouted (pin_shard id reason) s h = ground (arith, h)
step-IsRouted violate_shard s h = ground (arith, h)
step-IsRouted clear_shard s h = ground (arith, h)
step-IsRouted (require_read_after_write lsn) s h = ground (arith, h)
step-IsRouted unknown_read_after_write s h = ground (arith, h)
step-IsRouted no_read_after_write s h = ground (arith, h)

run-keeps : (es : List Event) (s : VirtualSession) → IsRouted s → IsRouted (run es s)
unfolding run
run-keeps [] s h = h
run-keeps (e ∷ es) s h = run-keeps es (step e s) (step-IsRouted e s h)

default-IsRouted : IsRouted default
unfolding default
default-IsRouted = ground arith

-- After any calls on a new session: an idle one has no routing, one with an open transaction has
-- one, and the routing in force is what its access mode and its writes ask for.
pub run-IsRouted : (es : List Event) → IsRouted (run es default)
run-IsRouted es = run-keeps es default default-IsRouted
