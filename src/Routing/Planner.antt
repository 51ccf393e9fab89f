-- ===== src/Routing/Planner.antt =====
-- crates/pg-kinetic-proxy/src/routing.rs: where a statement goes, by its class and hint, the state
-- of its session, and the health of the replicas.
pub mod Candidates
pub mod Targets
use pg_kinetic.Lsn.{PgLsn}
use pg_kinetic.Prelude.{
  ℕ, Bool, true, false, not, ◌&&◌, ◌||◌, Option, none, some, List, [], ◌∷◌, ltb, leb, ◌==◌,
  if◌then◌else◌, ◌^◌, ◌-◌,
}
use pg_kinetic.Routing.Modes.{ReadRoutingMode, FallbackPolicy, FreshnessPolicy}
use pg_kinetic.Routing.{QueryClass, routes_to_replica}
use pg_kinetic.Session.Virtual.{TransactionState, ReadAfterWriteState, disabled, required}
use pg_kinetic.Sql.Chars.{Text}
use pg_kinetic.Sql.Hint.{RoutingHint, stale_ok, strict_fresh, no_hint, SqlAnalysis, analyze_sql}

pub data RoutingReason : Type 0 where
  off primary_only_mode require_replica_mode in_transaction failed_transaction : RoutingReason
  write_query unknown_query transaction_control session_mutation copy_query : RoutingReason
  read_candidate_query read_only_query primary_hint replica_hint stale_ok_hint : RoutingReason
  strict_fresh_hint freshness_required replica_stale replica_unavailable : RoutingReason
  fallback_primary fallback_reject fallback_wait policy_denied : RoutingReason
  policy_require_primary policy_require_replica policy_route_override : RoutingReason
  policy_shard_override : RoutingReason

pub record ReadRoutingPlanner : Type 0 where
  pub read_routing_mode : ReadRoutingMode
  pub fallback_policy : FallbackPolicy
  pub freshness_policy : FreshnessPolicy
  pub max_replica_lag_ms : ℕ

pub record ReplicaCandidate : Type 0 where
  pub replica_id : ℕ
  pub healthy : Bool
  pub split_brain : Bool
  pub replay_lsn : Option PgLsn
  pub lag_ms : Option ℕ

-- `health` is the list of `RouteHealthSnapshot`.
pub record RoutingContext : Type 0 where
  pub sql : Text
  pub transaction_state : TransactionState
  pub read_after_write_state : ReadAfterWriteState
  pub health : List ReplicaCandidate
  pub analysis : Option SqlAnalysis

abbrev analysis_or : Option SqlAnalysis → Text → SqlAnalysis
analysis_or none sql = analyze_sql sql
analysis_or (some a) sql = a

unfoldable pub query_class : RoutingContext → QueryClass
query_class context = (analysis_or context.analysis context.sql).query_class

unfoldable pub routing_hint : RoutingContext → RoutingHint
routing_hint context = (analysis_or context.analysis context.sql).routing_hint

pub data RoutingTarget : Type 0 where
  primary : RoutingReason → RoutingTarget
  replica : ReplicaCandidate → RoutingReason → RoutingTarget
  wait reject : RoutingReason → RoutingTarget

-- `RoutingTarget::replica`
unfoldable pub target_replica : RoutingTarget → Option ReplicaCandidate
target_replica (replica candidate reason) = some candidate
target_replica _ = none

unfoldable pub primary_for_query_class : QueryClass → RoutingTarget
primary_for_query_class QueryClass.write = primary write_query
primary_for_query_class QueryClass.read_only = primary read_only_query
primary_for_query_class QueryClass.read_candidate = primary read_candidate_query
primary_for_query_class QueryClass.transaction_control = primary transaction_control
primary_for_query_class QueryClass.session_mutation = primary session_mutation
primary_for_query_class QueryClass.copy = primary copy_query
primary_for_query_class QueryClass.unknown = primary unknown_query

unfoldable pub success_reason : RoutingHint → RoutingReason
success_reason RoutingHint.primary = primary_hint
success_reason RoutingHint.replica = replica_hint
success_reason stale_ok = stale_ok_hint
success_reason strict_fresh = strict_fresh_hint
success_reason no_hint = read_candidate_query

unfoldable pub fallback_target : FallbackPolicy → RoutingTarget
fallback_target FallbackPolicy.primary = primary fallback_primary
fallback_target FallbackPolicy.reject = reject fallback_reject
fallback_target FallbackPolicy.wait = wait fallback_wait

unfoldable pub requires_session_write_lsn : FreshnessPolicy → Bool
requires_session_write_lsn FreshnessPolicy.session_write_lsn = true
requires_session_write_lsn FreshnessPolicy.session_write_lsn_and_max_lag = true
requires_session_write_lsn _ = false

unfoldable pub requires_replica_lag : FreshnessPolicy → Bool
requires_replica_lag FreshnessPolicy.max_replica_lag = true
requires_replica_lag FreshnessPolicy.session_write_lsn_and_max_lag = true
requires_replica_lag _ = false

abbrev stale_policy : FreshnessPolicy → FreshnessPolicy
stale_policy FreshnessPolicy.session_write_lsn_and_max_lag = FreshnessPolicy.max_replica_lag
stale_policy other = other

unfoldable pub effective_freshness_policy : FreshnessPolicy → RoutingHint → FreshnessPolicy
effective_freshness_policy configured strict_fresh = FreshnessPolicy.session_write_lsn_and_max_lag
effective_freshness_policy configured stale_ok = stale_policy configured
effective_freshness_policy configured _ = configured

-- The two tests of `replica_satisfies_freshness`.
abbrev pub satisfies_lsn : ReadAfterWriteState → Option PgLsn → Bool
satisfies_lsn disabled replay = true
satisfies_lsn ReadAfterWriteState.unknown replay = false
satisfies_lsn (required lsn) none = false
satisfies_lsn (required lsn) (some replay) = leb lsn replay

abbrev pub satisfies_lag : ℕ → Option ℕ → Bool
satisfies_lag max none = false
satisfies_lag max (some lag) = leb lag max

unfoldable pub replica_satisfies_freshness :
    ReplicaCandidate → FreshnessPolicy → ReadAfterWriteState → ℕ → Bool
unfolding requires_session_write_lsn requires_replica_lag
replica_satisfies_freshness candidate policy state max_replica_lag_ms =
    (not (requires_session_write_lsn policy) || satisfies_lsn state candidate.replay_lsn)
    && (not (requires_replica_lag policy) || satisfies_lag max_replica_lag_ms candidate.lag_ms)

unfoldable pub is_safe : ReplicaCandidate → FreshnessPolicy → ReadAfterWriteState → ℕ → Bool
unfolding replica_satisfies_freshness
is_safe candidate policy state max_replica_lag_ms =
    candidate.healthy
    && not candidate.split_brain
    && replica_satisfies_freshness candidate policy state max_replica_lag_ms

abbrev pub lag_or_max : Option ℕ → ℕ
lag_or_max none = 2 ^ 64 - 1
lag_or_max (some lag) = lag

-- `<=` on the keys of `min_by_key`.
abbrev pub key_leb : ReplicaCandidate → ReplicaCandidate → Bool
key_leb a b =
    ltb (lag_or_max a.lag_ms) (lag_or_max b.lag_ms)
    || (lag_or_max a.lag_ms == lag_or_max b.lag_ms && leb a.replica_id b.replica_id)

abbrev pub least : ReplicaCandidate → Option ReplicaCandidate → Option ReplicaCandidate
least c none = some c
least c (some d) = if key_leb c d then some c else some d

unfoldable pub select_safe_replica :
    List ReplicaCandidate → ReadAfterWriteState → ℕ → FreshnessPolicy → Option ReplicaCandidate
unfolding is_safe
select_safe_replica [] state max policy = none
select_safe_replica (c ∷ cs) state max policy =
    let rest = select_safe_replica cs state max policy in
    if is_safe c policy state max then least c rest else rest

abbrev pub any_healthy : List ReplicaCandidate → Bool
any_healthy [] = false
any_healthy (c ∷ cs) = c.healthy || any_healthy cs

abbrev pub is_strict_fresh : RoutingHint → Bool
is_strict_fresh strict_fresh = true
is_strict_fresh _ = false

abbrev pub is_primary_hint : RoutingHint → Bool
is_primary_hint RoutingHint.primary = true
is_primary_hint _ = false

abbrev pub is_disabled : ReadAfterWriteState → Bool
is_disabled disabled = true
is_disabled _ = false

abbrev pub is_required : ReadRoutingMode → Bool
is_required ReadRoutingMode.require_replica = true
is_required _ = false

abbrev pub stale_reason : ReadAfterWriteState → RoutingReason
stale_reason ReadAfterWriteState.unknown = freshness_required
stale_reason (required lsn) = replica_stale
stale_reason disabled = fallback_primary

abbrev pub stale_target : FallbackPolicy → RoutingReason → RoutingTarget
stale_target FallbackPolicy.primary reason = primary fallback_primary
stale_target FallbackPolicy.reject reason = reject reason
stale_target FallbackPolicy.wait reason = wait fallback_wait

-- What follows when no replica is safe.
unfoldable pub without_replica :
    ReadRoutingPlanner → RoutingContext → FreshnessPolicy → RoutingTarget
unfolding fallback_target requires_session_write_lsn
without_replica planner context policy =
    if is_required planner.read_routing_mode
    then reject require_replica_mode
    else if not (any_healthy context.health)
    then fallback_target planner.fallback_policy
    else if requires_session_write_lsn policy && not (is_disabled context.read_after_write_state)
    then stale_target planner.fallback_policy (stale_reason context.read_after_write_state)
    else fallback_target planner.fallback_policy

abbrev pub or_without : RoutingTarget → RoutingHint → Option ReplicaCandidate → RoutingTarget
or_without other hint none = other
or_without other hint (some candidate) = replica candidate (success_reason hint)

-- A statement outside of a transaction, under a mode that uses replicas.
unfoldable pub target_of_read :
    ReadRoutingPlanner → RoutingContext → QueryClass → RoutingHint → RoutingTarget
unfolding routes_to_replica primary_for_query_class effective_freshness_policy fallback_target
    select_safe_replica without_replica success_reason
target_of_read planner context class hint =
    let policy = effective_freshness_policy planner.freshness_policy hint in
    if not (routes_to_replica class)
    then primary_for_query_class class
    else if is_primary_hint hint
    then primary primary_hint
    else if is_strict_fresh hint && is_disabled context.read_after_write_state
    then fallback_target planner.fallback_policy
    else or_without (without_replica planner context policy) hint (
        select_safe_replica context.health context.read_after_write_state planner.max_replica_lag_ms
          policy)

abbrev pub in_state : TransactionState → RoutingTarget → RoutingTarget
in_state TransactionState.in_transaction target = primary in_transaction
in_state TransactionState.failed target = primary failed_transaction
in_state TransactionState.idle target = target

abbrev pub in_mode : ReadRoutingMode → RoutingTarget → RoutingTarget
in_mode ReadRoutingMode.off target = primary off
in_mode ReadRoutingMode.primary_only target = primary primary_only_mode
in_mode _ target = target

unfoldable pub choose_routing_target : ReadRoutingPlanner → RoutingContext → RoutingTarget
unfolding target_of_read
choose_routing_target planner context = in_mode planner.read_routing_mode (
    in_state context.transaction_state
      (target_of_read planner context (query_class context) (routing_hint context)))
