-- ===== src/Routing.antt =====
-- The vocabulary of crates/pg-kinetic-core/src/traffic/routing.rs and the shard ids of
-- crates/pg-kinetic-core/src/traffic/sharding.rs.
mod Tests
pub mod Modes
pub mod Planner
pub mod Policy
use pg_kinetic.Prelude.{Bytes, Bool, true, false, if◌then◌else◌, Option, none, some, [], ◌∷◌}

pub data BackendRole : Type 0 where
  primary replica unknown : BackendRole

pub data QueryClass : Type 0 where
  write read_only read_candidate transaction_control session_mutation copy unknown : QueryClass

unfoldable pub routes_to_replica : QueryClass → Bool
routes_to_replica read_only = true
routes_to_replica read_candidate = true
routes_to_replica _ = false

unfoldable pub target_role : QueryClass → BackendRole
unfolding routes_to_replica
target_role q = if routes_to_replica q then replica else primary

pub data RoutingReason : Type 0 where
  off primary_only_mode prefer_replica_mode require_replica_mode write_query : RoutingReason
  read_only_query read_candidate_query transaction_control session_mutation : RoutingReason
  copy unknown_query freshness_required replica_stale replica_unavailable : RoutingReason
  fallback_primary fallback_reject fallback_wait : RoutingReason

-- `reason == RoutingReason::UnknownQuery`.
abbrev pub is_unknown_query : RoutingReason → Bool
is_unknown_query unknown_query = true
is_unknown_query _ = false

pub data MultiShardPolicy : Type 0 where
  reject first_match fan_out : MultiShardPolicy

-- The text of a shard id; `ShardId::new` refuses the empty one.
abbrev pub ShardId : Type 0
ShardId = Bytes

unfoldable pub shard_id_new : Bytes → Option ShardId
shard_id_new [] = none
shard_id_new (b ∷ bs) = some (b ∷ bs)
