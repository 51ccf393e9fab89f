-- ===== src/Routing/Planner/Targets.antt =====
-- When crates/pg-kinetic-proxy/src/routing.rs sends a statement to a replica, and to which.
use mathlib.Core.Bool.{true≢false}
use pg_kinetic.Prelude.{
  subst, ◌≡◌, ◌≢◌, refl, sym, ◌∙◌, ◌⊎◌, inl, inr, Bool, true, false, ◌&&◌, not, Option, none, some,
  List, [], ◌∷◌, arith, All, Option-cases, if◌then◌else◌,
}
use pg_kinetic.Routing.Modes.{ReadRoutingMode, FallbackPolicy, FreshnessPolicy}
use pg_kinetic.Routing.Planner.Candidates.{
  IsSafe, is_safe_iff, In, IsLeast, Selected, select_safe_replica-Selected,
}
use pg_kinetic.Routing.Planner.{
  ReadRoutingPlanner, ReplicaCandidate, RoutingContext, RoutingTarget, RoutingReason, query_class,
  routing_hint, target_replica, primary_for_query_class, fallback_target,
  effective_freshness_policy, is_safe, select_safe_replica, is_primary_hint, is_strict_fresh,
  is_disabled, stale_reason, stale_target, without_replica, or_without, target_of_read,
  choose_routing_target,
}
use pg_kinetic.Routing.{QueryClass, routes_to_replica}
use pg_kinetic.Session.Virtual.{idle, ReadAfterWriteState, disabled}
use pg_kinetic.Sql.Hint.{RoutingHint, strict_fresh}

fallback_target-replica : (f : FallbackPolicy) → target_replica (fallback_target f) ≡ none
unfolding target_replica fallback_target
fallback_target-replica f = ground arith

primary_for_query_class-replica :
    (c : QueryClass) → target_replica (primary_for_query_class c) ≡ none
unfolding target_replica primary_for_query_class
primary_for_query_class-replica c = ground arith

stale_target-replica :
    (f : FallbackPolicy) (r : RoutingReason) → target_replica (stale_target f r) ≡ none
unfolding target_replica
stale_target-replica f r = ground arith

without_replica-replica :
    (p : ReadRoutingPlanner) (c : RoutingContext) (f : FreshnessPolicy)
    → target_replica (without_replica p c f) ≡ none
unfolding target_replica without_replica
without_replica-replica p c f = ground (
  arith,
  fallback_target-replica p.fallback_policy,
  stale_target-replica p.fallback_policy (stale_reason c.read_after_write_state),
)

or_without-replica :
    (t : RoutingTarget) (h : RoutingHint) (o : Option ReplicaCandidate)
    → target_replica t ≡ none
    → target_replica (or_without t h o) ≡ o
unfolding target_replica
or_without-replica t h none e = e
or_without-replica t h (some c) e = refl

-- The tests in front of the search for a replica.
abbrev may_read : QueryClass → RoutingHint → ReadAfterWriteState → Bool
may_read class hint state =
    routes_to_replica class
    && not (is_primary_hint hint)
    && not (is_strict_fresh hint && is_disabled state)

abbrev pub policy_of : ReadRoutingPlanner → RoutingContext → FreshnessPolicy
policy_of p c = effective_freshness_policy p.freshness_policy (routing_hint c)

abbrev selected : ReadRoutingPlanner → RoutingContext → FreshnessPolicy → Option ReplicaCandidate
selected p c = select_safe_replica c.health c.read_after_write_state p.max_replica_lag_ms

choose_if :
    (routes hinted refused : Bool) (a b c : RoutingTarget) {o : Option ReplicaCandidate}
    → target_replica a ≡ none
    → target_replica b ≡ none
    → target_replica c ≡ o
    → target_replica (
        if not routes
        then a
        else if hinted
        then RoutingTarget.primary RoutingReason.primary_hint
        else if refused
        then b
        else c)
      ≡ (if routes && not hinted && not refused then o else none)
unfolding target_replica
choose_if routes hinted refused a b c ha hb hc = ground (arith, ha, hb, hc)

target_of_read-replica :
    (p : ReadRoutingPlanner) (c : RoutingContext) (class : QueryClass) (hint : RoutingHint)
    → target_replica (target_of_read p c class hint) ≡ (
        if may_read class hint c.read_after_write_state
        then selected p c (effective_freshness_policy p.freshness_policy hint)
        else none)
unfolding target_of_read
target_of_read-replica p c class hint =
    let policy = effective_freshness_policy p.freshness_policy hint in
    let found =
      or_without-replica (without_replica p c policy) hint (selected p c policy)
        (without_replica-replica p c policy) in
    choose_if (routes_to_replica class) (is_primary_hint hint)
      (is_strict_fresh hint && is_disabled c.read_after_write_state) _ _ _
      (primary_for_query_class-replica class) (fallback_target-replica p.fallback_policy) found

-- A replica may be read from: the mode has replicas, no transaction is open, the statement only
-- reads, the hint does not ask for the primary, and not for more than is known.
abbrev pub MayUseReplica : ReadRoutingPlanner → RoutingContext → Type 0
MayUseReplica p c =
    ((p.read_routing_mode ≡ ReadRoutingMode.prefer_replica)
      ⊎ (p.read_routing_mode ≡ ReadRoutingMode.require_replica))
    × (c.transaction_state ≡ idle)
    × (routes_to_replica (query_class c) ≡ true)
    × (routing_hint c ≢ RoutingHint.primary)
    × ((routing_hint c ≢ strict_fresh) ⊎ (c.read_after_write_state ≢ disabled))

chosen :
    (p : ReadRoutingPlanner) (c : RoutingContext)
    → (MayUseReplica p c
        × (target_replica (choose_routing_target p c) ≡ selected p c (policy_of p c)))
      ⊎ (¬ MayUseReplica p c × (target_replica (choose_routing_target p c) ≡ none))
unfolding choose_routing_target target_replica
chosen p c = ground (arith, target_of_read-replica p c (query_class c) (routing_hint c))

none_some : {r : ReplicaCandidate} → ¬ (none ≡ some r)
none_some h = ground arith

unsafe_In :
    (P : ReplicaCandidate → Bool) (r : ReplicaCandidate) (cs : List ReplicaCandidate)
    → All (λ d. P d ≡ false) cs
    → In r cs
    → ¬ (P r ≡ true)
unsafe_In P r [] h there k = absurd there
unsafe_In P r (x ∷ xs) (h, hs) (inl e) k = true≢false (sym k ∙ rw e h)
unsafe_In P r (x ∷ xs) (h, hs) (inr there) k = unsafe_In P r xs hs there k

-- A statement goes to a replica only when one may be used, and then to one of the known replicas
-- that is healthy, alone in its cluster, as fresh as the policy and the hint ask, and least behind
-- among the replicas of that kind.
pub choose_routing_target-IsSafe :
    (p : ReadRoutingPlanner) (c : RoutingContext) (r : ReplicaCandidate)
    → target_replica (choose_routing_target p c) ≡ some r
    → MayUseReplica p c
      × In r c.health
      × IsSafe r (policy_of p c) c.read_after_write_state p.max_replica_lag_ms
      × IsLeast (policy_of p c) c.read_after_write_state p.max_replica_lag_ms r c.health
choose_routing_target-IsSafe p c r h = elim (chosen p c) [
  | inr (_, e) ↦ absurd (none_some (sym e ∙ h))
  | inl (may, e) ↦
      let found =
        subst (Selected (policy_of p c) c.read_after_write_state p.max_replica_lag_ms c.health)
          (sym e ∙ h)
          (select_safe_replica-Selected (policy_of p c) c.read_after_write_state
            p.max_replica_lag_ms c.health) in
      (
        may,
        found.0.0,
        (is_safe_iff r (policy_of p c) c.read_after_write_state p.max_replica_lag_ms).0 found.0.1,
        found.1,
      )
]

-- When a replica may be used and one that is known is safe, the statement goes to a replica.
pub choose_routing_target_reads :
    (p : ReadRoutingPlanner) (c : RoutingContext) (r : ReplicaCandidate)
    → MayUseReplica p c
    → In r c.health
    → IsSafe r (policy_of p c) c.read_after_write_state p.max_replica_lag_ms
    → (d : ReplicaCandidate) × (target_replica (choose_routing_target p c) ≡ some d)
choose_routing_target_reads p c r may there safe = elim (chosen p c) [
  | inr (never, _) ↦ absurd (never may)
  | inl (_, e) ↦ elim (Option-cases (selected p c (policy_of p c))) [
    | inr (d, k) ↦ (d, e ∙ k)
    | inl k ↦
        let nothing =
          subst (Selected (policy_of p c) c.read_after_write_state p.max_replica_lag_ms c.health) k
            (select_safe_replica-Selected (policy_of p c) c.read_after_write_state
              p.max_replica_lag_ms c.health) in
        absurd (
          unsafe_In (λ d. is_safe d (policy_of p c) c.read_after_write_state p.max_replica_lag_ms) r
            c.health nothing there
            ((is_safe_iff r (policy_of p c) c.read_after_write_state p.max_replica_lag_ms).1 safe))
  ]
]
