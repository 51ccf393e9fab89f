-- ===== src/Routing/Policy.antt =====
-- crates/pg-kinetic-proxy/src/routing.rs: what a policy action makes of a routing target. The
-- payloads of the actions do not matter to it and are texts.
pub mod Safe
use pg_kinetic.Prelude.{Bool, true, false, not, ◌&&◌, Option, none, some, if◌then◌else◌}
use pg_kinetic.Routing.Modes.{ReadRoutingMode}
use pg_kinetic.Routing.Planner.{
  ReadRoutingPlanner, ReplicaCandidate, RoutingContext, RoutingTarget, primary, replica, wait,
  reject, RoutingReason, policy_denied, policy_require_primary, policy_require_replica,
  policy_route_override, policy_shard_override, replica_satisfies_freshness, choose_routing_target,
}
use pg_kinetic.Sql.Chars.{Text}

pub data PolicyAction : Type 0 where
  allow : PolicyAction
  deny : Text → Text → PolicyAction
  require_primary require_replica : PolicyAction
  route_override shard_override : Text → PolicyAction

unfoldable pub policy_denied_target : RoutingTarget
policy_denied_target = reject policy_denied

unfoldable pub map_routing_target_reason : RoutingTarget → RoutingReason → RoutingTarget
map_routing_target_reason (primary _) reason = primary reason
map_routing_target_reason (replica candidate _) reason = replica candidate reason
map_routing_target_reason (wait _) reason = wait reason
map_routing_target_reason (reject _) reason = reject reason

unfoldable pub ensure_policy_action_target_is_safe :
    ReadRoutingPlanner → RoutingContext → RoutingTarget → RoutingTarget
unfolding replica_satisfies_freshness
ensure_policy_action_target_is_safe planner context (replica candidate reason) =
    if candidate.healthy
      && not candidate.split_brain
      && replica_satisfies_freshness candidate planner.freshness_policy
          context.read_after_write_state planner.max_replica_lag_ms
    then replica candidate reason
    else choose_routing_target planner context
ensure_policy_action_target_is_safe planner context other = other

-- The target that `RequireReplica` makes of one under the mode that requires a replica.
abbrev pub required_replica : RoutingTarget → RoutingTarget
required_replica (replica candidate _) = replica candidate policy_require_replica
required_replica (primary _) = primary policy_require_replica
required_replica _ = reject policy_require_replica

abbrev pub replica_planner : ReadRoutingPlanner → ReadRoutingPlanner
replica_planner planner = record planner { read_routing_mode = ReadRoutingMode.require_replica }

abbrev pub unwrap_target : Option RoutingTarget → RoutingTarget → RoutingTarget
unwrap_target none other = other
unwrap_target (some target) other = target

unfoldable pub act :
    ReadRoutingPlanner → RoutingContext → RoutingTarget → Option PolicyAction → RoutingTarget
unfolding policy_denied_target map_routing_target_reason
act planner context current none = current
act planner context current (some allow) = current
act planner context current (some (deny _ _)) = policy_denied_target
act planner context current (some require_primary) = primary policy_require_primary
act planner context current (some require_replica) =
    required_replica (choose_routing_target (replica_planner planner) context)
act planner context current (some (route_override _)) =
    map_routing_target_reason current policy_route_override
act planner context current (some (shard_override _)) =
    map_routing_target_reason current policy_shard_override

unfoldable pub apply_policy_action_to_routing_target :
    ReadRoutingPlanner → RoutingContext → Option RoutingTarget → Option PolicyAction → RoutingTarget
unfolding act ensure_policy_action_target_is_safe
apply_policy_action_to_routing_target planner context current action =
    ensure_policy_action_target_is_safe planner context
      (act planner context (unwrap_target current (choose_routing_target planner context)) action)
