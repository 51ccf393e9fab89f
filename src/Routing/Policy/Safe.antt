-- ===== src/Routing/Policy/Safe.antt =====
-- That no policy action of crates/pg-kinetic-proxy/src/routing.rs opens a replica to a statement
-- that may not use one.
use pg_kinetic.Prelude.{
  ◌≡◌, sym, ◌∙◌, ◌⊎◌, inl, inr, true, false, not, ◌&&◌, Option, none, some, arith, Bool-cases,
}
use pg_kinetic.Routing.Planner.Candidates.{In}
use pg_kinetic.Routing.Planner.Targets.{choose_routing_target-IsSafe}
use pg_kinetic.Routing.Planner.{
  ReadRoutingPlanner, ReplicaCandidate, RoutingContext, RoutingTarget, primary, replica, wait,
  reject, RoutingReason, query_class, replica_satisfies_freshness, target_replica,
  choose_routing_target,
}
use pg_kinetic.Routing.Policy.{
  PolicyAction, allow, deny, require_primary, require_replica, route_override, shard_override, act,
  map_routing_target_reason, required_replica, replica_planner, ensure_policy_action_target_is_safe,
  apply_policy_action_to_routing_target,
}
use pg_kinetic.Routing.{routes_to_replica}
use pg_kinetic.Session.Virtual.{idle}

-- A replica that is up, for a statement that reads outside of a transaction.
abbrev pub IsUsable : RoutingContext → ReplicaCandidate → Type 0
IsUsable c r =
    (c.transaction_state ≡ idle)
    × (routes_to_replica (query_class c) ≡ true)
    × In r c.health
    × (r.healthy ≡ true)
    × (r.split_brain ≡ false)

choose-IsUsable :
    (p : ReadRoutingPlanner) (c : RoutingContext) (r : ReplicaCandidate)
    → target_replica (choose_routing_target p c) ≡ some r
    → IsUsable c r
choose-IsUsable p c r h =
    let (may, there, safe, _) = choose_routing_target-IsSafe p c r h in
    (may.1, may.2, there, safe.0.0, safe.0.1)

map_routing_target_reason-replica :
    (t : RoutingTarget) (reason : RoutingReason)
    → target_replica (map_routing_target_reason t reason) ≡ target_replica t
unfolding map_routing_target_reason target_replica
map_routing_target_reason-replica t reason = ground arith

required_replica-replica :
    (t : RoutingTarget) → target_replica (required_replica t) ≡ target_replica t
unfolding target_replica
required_replica-replica t = ground arith

act-replica :
    (p : ReadRoutingPlanner) (c : RoutingContext) (t : RoutingTarget) (a : Option PolicyAction)
    (r : ReplicaCandidate)
    → target_replica (act p c t a) ≡ some r
    → IsUsable c r ⊎ (target_replica t ≡ some r)
unfolding act target_replica
act-replica p c t none r h = inr h
act-replica p c t (some allow) r h = inr h
act-replica p c t (some (deny _ _)) r h = ground arith
act-replica p c t (some require_primary) r h = ground arith
act-replica p c t (some require_replica) r h = inl (
    choose-IsUsable (replica_planner p) c r
      (sym (required_replica-replica (choose_routing_target (replica_planner p) c)) ∙ h))
act-replica p c t (some (route_override _)) r h =
    inr (sym (map_routing_target_reason-replica t RoutingReason.policy_route_override) ∙ h)
act-replica p c t (some (shard_override _)) r h =
    inr (sym (map_routing_target_reason-replica t RoutingReason.policy_shard_override) ∙ h)

-- A replica that the configured policy lets be used now.
abbrev pub IsFit : ReadRoutingPlanner → RoutingContext → ReplicaCandidate → Type 0
IsFit p c r =
    (r.healthy ≡ true)
    × (r.split_brain ≡ false)
    × (replica_satisfies_freshness r p.freshness_policy c.read_after_write_state
          p.max_replica_lag_ms
        ≡ true)

-- The replica of the target that the caller brings.
abbrev pub IsCurrent : Option RoutingTarget → ReplicaCandidate → Type 0
IsCurrent none r = ⊥
IsCurrent (some t) r = target_replica t ≡ some r

fit :
    (p : ReadRoutingPlanner) (c : RoutingContext) (d r : ReplicaCandidate) (reason : RoutingReason)
    → (d.healthy
        && not d.split_brain
        && replica_satisfies_freshness d p.freshness_policy c.read_after_write_state
            p.max_replica_lag_ms)
      ≡ true
    → target_replica (replica d reason) ≡ some r
    → IsFit p c r
unfolding target_replica
fit p c d r reason k h = let e : d ≡ r = ground arith in rw (← e) (ground arith)

ensure-replica :
    (p : ReadRoutingPlanner) (c : RoutingContext) (t : RoutingTarget) (r : ReplicaCandidate)
    → target_replica (ensure_policy_action_target_is_safe p c t) ≡ some r
    → ((target_replica t ≡ some r) × IsFit p c r)
      ⊎ (target_replica (choose_routing_target p c) ≡ some r)
unfolding ensure_policy_action_target_is_safe target_replica
ensure-replica p c (primary _) r h = ground arith
ensure-replica p c (wait _) r h = ground arith
ensure-replica p c (reject _) r h = ground arith
ensure-replica p c (replica d reason) r h =
    elim (Bool-cases (
      d.healthy
      && not d.split_brain
      && replica_satisfies_freshness d p.freshness_policy c.read_after_write_state
          p.max_replica_lag_ms)) [
            | inl k ↦
                let g : target_replica (replica d reason) ≡ some r = ground arith in
                inl (g, fit p c d r reason k g)
            | inr k ↦ inr (ground arith)
          ]

-- Whatever a policy asks for, a statement goes to a replica in two cases only: it reads outside of a
-- transaction, and the replica is a known one that is healthy and alone in its cluster; or the
-- caller's own target was that replica, and it is healthy, alone, and as fresh as the configured
-- policy asks. In the second case neither the transaction nor the statement is looked at again.
pub apply_policy-IsUsable :
    (p : ReadRoutingPlanner) (c : RoutingContext) (current : Option RoutingTarget)
    (a : Option PolicyAction) (r : ReplicaCandidate)
    → target_replica (apply_policy_action_to_routing_target p c current a) ≡ some r
    → IsUsable c r ⊎ (IsCurrent current r × IsFit p c r)
unfolding apply_policy_action_to_routing_target
apply_policy-IsUsable p c none a r h =
    elim (ensure-replica p c (act p c (choose_routing_target p c) a) r h) [
      | inr e ↦ inl (choose-IsUsable p c r e)
      | inl (e, _) ↦ elim (act-replica p c (choose_routing_target p c) a r e) [
        | inl u ↦ inl u
        | inr k ↦ inl (choose-IsUsable p c r k)
      ]
    ]
apply_policy-IsUsable p c (some t) a r h = elim (ensure-replica p c (act p c t a) r h) [
  | inr e ↦ inl (choose-IsUsable p c r e)
  | inl (e, ok) ↦ elim (act-replica p c t a r e) [ inl u ↦ inl u | inr k ↦ inr (k, ok) ]
]
