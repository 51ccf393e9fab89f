-- ===== src/Routing/Tests.antt =====
-- Targets of crates/pg-kinetic-proxy/src/routing.rs on two replicas.
use pg_kinetic.Prelude.{◌⊎◌, ◌≡◌, refl, true, false, some, none, [], ◌∷◌, inl, inr, arith, codes}
use pg_kinetic.Routing.Modes.{ReadRoutingMode, FallbackPolicy, FreshnessPolicy}
use pg_kinetic.Routing.Planner.Candidates.{In, IsSafe, IsLeast}
use pg_kinetic.Routing.Planner.Targets.{
  policy_of, MayUseReplica, choose_routing_target-IsSafe, choose_routing_target_reads,
}
use pg_kinetic.Routing.Planner.{
  ReadRoutingPlanner, ReplicaCandidate, RoutingContext, query_class, routing_hint, target_replica,
  requires_session_write_lsn, requires_replica_lag, effective_freshness_policy,
  choose_routing_target,
}
use pg_kinetic.Routing.Policy.Safe.{IsUsable, IsFit, IsCurrent, apply_policy-IsUsable}
use pg_kinetic.Routing.Policy.{route_override, apply_policy_action_to_routing_target}
use pg_kinetic.Routing.{QueryClass, routes_to_replica}
use pg_kinetic.Session.Virtual.{TransactionState, required}
use pg_kinetic.Sql.Hint.{RoutingHint}

abbrev planner : ReadRoutingPlanner
planner = record {
  read_routing_mode = ReadRoutingMode.prefer_replica;
  fallback_policy = FallbackPolicy.primary;
  freshness_policy = FreshnessPolicy.session_write_lsn;
  max_replica_lag_ms = 100;
}

abbrev behind : ReplicaCandidate
behind = record {
  replica_id = 1;
  healthy = true;
  split_brain = false;
  replay_lsn = some 40;
  lag_ms = some 5;
}

abbrev level : ReplicaCandidate
level = record behind { replica_id = 2; replay_lsn = some 60 }

abbrev context : RoutingContext
context = record {
  sql = codes "select 1";
  transaction_state = TransactionState.idle;
  read_after_write_state = required 50;
  health = behind ∷ level ∷ [];
  analysis =
      some (record { query_class = QueryClass.read_candidate; routing_hint = RoutingHint.no_hint });
}

chosen_level : target_replica (choose_routing_target planner context) ≡ some level
unfolding choose_routing_target target_replica query_class routing_hint
chosen_level = refl

choose_routing_target-IsSafe_example :
    MayUseReplica planner context
    × In level context.health
    × IsSafe level (policy_of planner context) context.read_after_write_state 100
    × IsLeast (policy_of planner context) context.read_after_write_state 100 level context.health
choose_routing_target-IsSafe_example =
    choose_routing_target-IsSafe planner context level chosen_level

may_use : MayUseReplica planner context
unfolding query_class routing_hint routes_to_replica
may_use = (inl refl, refl, refl, ground arith, inl (ground arith))

level-IsSafe : IsSafe level (policy_of planner context) context.read_after_write_state 100
unfolding effective_freshness_policy routing_hint requires_session_write_lsn requires_replica_lag
level-IsSafe = ((refl, refl), (inr (60, (refl, omega arith)), inl refl))

choose_routing_target_reads_example :
    (d : ReplicaCandidate) × (target_replica (choose_routing_target planner context) ≡ some d)
choose_routing_target_reads_example =
    choose_routing_target_reads planner context level may_use (inr (inl refl)) level-IsSafe

overridden_level :
    target_replica (
      apply_policy_action_to_routing_target planner context none
        (some (route_override (codes "reports"))))
    ≡ some level
unfolding apply_policy_action_to_routing_target choose_routing_target target_replica query_class
    routing_hint
overridden_level = refl

apply_policy-IsUsable_example :
    IsUsable context level ⊎ (IsCurrent none level × IsFit planner context level)
apply_policy-IsUsable_example =
    apply_policy-IsUsable planner context none (some (route_override (codes "reports"))) level
      overridden_level
