-- ===== src/Session/Transaction.antt =====
-- crates/pg-kinetic-core/src/protocol/session.rs: how a transaction is routed, and its shard.
use pg_kinetic.Prelude.{◌≡◌, ◌↔◌, Bool, true, false, Option, none, some, arith, if◌then◌else◌}
use pg_kinetic.Routing.{BackendRole, RoutingReason, ShardId}

pub data TransactionAccessMode : Type 0 where
  read_only read_write : TransactionAccessMode

pub data TransactionShardDecision : Type 0 where
  accepted rejected follow_multi_shard_policy : TransactionShardDecision

pub data PreparedShardSummary : Type 0 where
  current_shard deferred : PreparedShardSummary
  shard : ShardId → PreparedShardSummary

unfoldable pub summary_shard_id : PreparedShardSummary → Option ShardId
summary_shard_id (shard id) = some id
summary_shard_id current_shard = none
summary_shard_id deferred = none

pub record TransactionShardState : Type 0 where
  pub current_shard_id : ShardId
  pub current_shard_route_reason : RoutingReason
  pub cross_shard_violation : Bool

unfoldable pub shard_state_new : ShardId → RoutingReason → TransactionShardState
shard_state_new id reason = record {
  current_shard_id = id;
  current_shard_route_reason = reason;
  cross_shard_violation = false;
}

pub record ReadRoutingTransactionState : Type 0 where
  pub access_mode : TransactionAccessMode
  pub target_role : BackendRole
  pub route_reason : RoutingReason
  pub primary_forced : Bool

refresh_by_mode : TransactionAccessMode → ReadRoutingTransactionState → ReadRoutingTransactionState
refresh_by_mode read_only s = record s {
  target_role = BackendRole.replica;
  route_reason = RoutingReason.read_only_query;
}
refresh_by_mode read_write s = record s {
  target_role = BackendRole.primary;
  route_reason = RoutingReason.transaction_control;
}

unfoldable pub refresh : ReadRoutingTransactionState → ReadRoutingTransactionState
unfolding refresh_by_mode
refresh s =
    if s.primary_forced
    then record s { target_role = BackendRole.primary; route_reason = RoutingReason.write_query }
    else refresh_by_mode s.access_mode s

unfoldable pub read_routing_new : TransactionAccessMode → ReadRoutingTransactionState
unfolding refresh
read_routing_new mode = refresh (record {
  access_mode = mode;
  target_role = BackendRole.primary;
  route_reason = RoutingReason.transaction_control;
  primary_forced = false;
})

unfoldable pub set_access_mode :
    TransactionAccessMode → ReadRoutingTransactionState → ReadRoutingTransactionState
unfolding refresh
set_access_mode mode s = refresh (record s { access_mode = mode })

unfoldable pub force_primary : ReadRoutingTransactionState → ReadRoutingTransactionState
unfolding refresh
force_primary s = refresh (record s { primary_forced = true })

-- A state that `refresh` would leave as it is.
abbrev pub IsFresh : ReadRoutingTransactionState → Type 0
IsFresh s = refresh s ≡ s

pub refresh_idem : (s : ReadRoutingTransactionState) → IsFresh (refresh s)
unfolding refresh
refresh_idem s = ground arith

-- A routing in force, as `refresh` leaves it, goes to a replica exactly when the transaction is read
-- only and has not written.
pub replica_iff :
    (s : ReadRoutingTransactionState)
    → IsFresh s
    → (s.target_role ≡ BackendRole.replica)
      ↔ ((s.access_mode ≡ read_only) × (s.primary_forced ≡ false))
unfolding refresh
replica_iff s h = ground arith

pub read_routing_new-IsFresh : (mode : TransactionAccessMode) → IsFresh (read_routing_new mode)
unfolding read_routing_new
read_routing_new-IsFresh mode = ground arith

pub set_access_mode-IsFresh :
    (mode : TransactionAccessMode) (s : ReadRoutingTransactionState)
    → IsFresh (set_access_mode mode s)
unfolding set_access_mode
set_access_mode-IsFresh mode s = refresh_idem (record s { access_mode = mode })

pub force_primary-IsFresh : (s : ReadRoutingTransactionState) → IsFresh (force_primary s)
unfolding force_primary
force_primary-IsFresh s = refresh_idem (record s { primary_forced = true })

pub set_access_mode_forced :
    (mode : TransactionAccessMode) (s : ReadRoutingTransactionState)
    → (set_access_mode mode s).primary_forced ≡ s.primary_forced
unfolding set_access_mode refresh
set_access_mode_forced mode s = ground arith

pub force_primary_forced :
    (s : ReadRoutingTransactionState) → (force_primary s).primary_forced ≡ true
unfolding force_primary refresh
force_primary_forced s = ground arith

-- A forced state goes to the primary.
pub forced-primary :
    (s : ReadRoutingTransactionState)
    → IsFresh s
    → s.primary_forced ≡ true
    → s.target_role ≡ BackendRole.primary
unfolding refresh
forced-primary s h f = ground arith
