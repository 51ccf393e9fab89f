-- ===== src/Session/Virtual/Shards.antt =====
-- The shard of a transaction (crates/pg-kinetic-core/src/protocol/virtual_session.rs).
use pg_kinetic.Prelude.{
  Bool, true, false, ◌&&◌, ◌||◌, not, Option, none, some, List, [], ◌∷◌, if◌then◌else◌, bytes_eq,
  bytes_eq_iff, ◌≡◌, ◌↔◌, refl, ◌∙◌, arith,
}
use mathlib.Core.Option
use pg_kinetic.Routing.{RoutingReason, is_unknown_query, MultiShardPolicy, ShardId}
use pg_kinetic.Session.Transaction.{
  TransactionShardDecision, accepted, rejected, follow_multi_shard_policy, TransactionShardState,
  shard_state_new,
}
use pg_kinetic.Session.Virtual.{VirtualSession, in_transaction, is_in_transaction}

unfoldable pub set_transaction_shard_affinity :
    ShardId → RoutingReason → VirtualSession → VirtualSession
unfolding shard_state_new
set_transaction_shard_affinity id reason s = record s {
  transaction_shard = some (shard_state_new id reason);
}

abbrev mark_violation : TransactionShardState → TransactionShardState
mark_violation t = record t { cross_shard_violation = true }

unfoldable pub mark_transaction_cross_shard_violation : VirtualSession → VirtualSession
mark_transaction_cross_shard_violation s = record s {
  transaction_shard = Option.map mark_violation s.transaction_shard;
}

unfoldable pub clear_transaction_shard_affinity : VirtualSession → VirtualSession
clear_transaction_shard_affinity s = record s { transaction_shard = none }

-- A known shard against the transaction's.
affinity_to :
    ShardId
    → RoutingReason
    → Option TransactionShardState
    → VirtualSession
    → VirtualSession × TransactionShardDecision
unfolding shard_state_new
affinity_to id reason none s =
    (record s { transaction_shard = some (shard_state_new id reason) }, accepted)
affinity_to id reason (some t) s =
    if bytes_eq t.current_shard_id id
    then (
      if is_unknown_query t.current_shard_route_reason && not (is_unknown_query reason)
          then record s {
            transaction_shard = some (record t { current_shard_route_reason = reason });
          }
          else s,
      accepted,
    )
    else (record s { transaction_shard = some (mark_violation t) }, rejected)

affinity_in_transaction :
    Option ShardId → RoutingReason → VirtualSession → VirtualSession × TransactionShardDecision
unfolding affinity_to
affinity_in_transaction none reason s = (s, follow_multi_shard_policy)
affinity_in_transaction (some id) reason s = affinity_to id reason s.transaction_shard s

-- The policy is not looked at.
unfoldable pub apply_transaction_shard_affinity :
    Option ShardId
    → RoutingReason
    → MultiShardPolicy
    → VirtualSession
    → VirtualSession × TransactionShardDecision
unfolding affinity_in_transaction
apply_transaction_shard_affinity id reason policy s =
    if is_in_transaction s.transaction then affinity_in_transaction id reason s else (s, accepted)

-- Requests of one transaction, in order.
unfoldable pub request_all : List (Option ShardId × RoutingReason) → VirtualSession → VirtualSession
request_all [] s = s
request_all ((id, reason) ∷ requests) s =
    request_all requests (apply_transaction_shard_affinity id reason MultiShardPolicy.reject s).0

-- Some request names another shard.
abbrev pub any_other : ShardId → List (Option ShardId × RoutingReason) → Bool
any_other home [] = false
any_other home ((none, _) ∷ requests) = any_other home requests
any_other home ((some id, _) ∷ requests) = not (bytes_eq home id) || any_other home requests

-- A request that names a shard, in an open transaction that has one, is accepted exactly when the
-- two are the same.
pub affinity-accepted_iff :
    (s : VirtualSession) (t : TransactionShardState) (id : ShardId) (reason : RoutingReason)
    (policy : MultiShardPolicy)
    → s.transaction ≡ in_transaction
    → s.transaction_shard ≡ some t
    → ((apply_transaction_shard_affinity (some id) reason policy s).1 ≡ accepted)
      ↔ (t.current_shard_id ≡ id)
unfolding apply_transaction_shard_affinity
affinity-accepted_iff s t id reason policy inside e =
    ground (arith, bytes_eq_iff t.current_shard_id id)

-- The shard state behind a request.
after_request : Option ShardId → RoutingReason → TransactionShardState → TransactionShardState
after_request none reason t = t
after_request (some id) reason t =
    if bytes_eq t.current_shard_id id
    then (if is_unknown_query t.current_shard_route_reason && not (is_unknown_query reason)
        then record t { current_shard_route_reason = reason }
        else t)
    else record t { cross_shard_violation = true }

request_step :
    (s : VirtualSession) (t : TransactionShardState) (id : Option ShardId) (reason : RoutingReason)
    → s.transaction ≡ in_transaction
    → s.transaction_shard ≡ some t
    → let s' = (apply_transaction_shard_affinity id reason MultiShardPolicy.reject s).0 in
      (s'.transaction ≡ in_transaction) × (s'.transaction_shard ≡ some (after_request id reason t))
unfolding apply_transaction_shard_affinity after_request
request_step s t none reason inside e = ground arith
request_step s t (some id) reason inside e = ground arith

after_request_home :
    (id : Option ShardId) (reason : RoutingReason) (t : TransactionShardState)
    → ((after_request id reason t).current_shard_id ≡ t.current_shard_id)
      × ((after_request id reason t).cross_shard_violation
          ≡ (t.cross_shard_violation || any_other t.current_shard_id ((id, reason) ∷ [])))
unfolding after_request
after_request_home none reason t = ground arith
after_request_home (some id) reason t = ground arith

-- An open transaction that has a shard keeps it over any requests, and is marked as violated exactly
-- when it was before or one of them names another shard.
pub request_all-keeps_shard :
    (requests : List (Option ShardId × RoutingReason)) (s : VirtualSession)
    (t : TransactionShardState)
    → s.transaction ≡ in_transaction
    → s.transaction_shard ≡ some t
    → (t' : TransactionShardState) × ((request_all requests s).transaction_shard ≡ some t')
      × (t'.current_shard_id ≡ t.current_shard_id)
      × (t'.cross_shard_violation
          ≡ (t.cross_shard_violation || any_other t.current_shard_id requests))
unfolding request_all
request_all-keeps_shard [] s t inside e = (t, e, refl, ground arith)
request_all-keeps_shard ((id, reason) ∷ requests) s t inside e =
    let (inside', e') = request_step s t id reason inside e in
    let u : TransactionShardState = after_request id reason t in
    let home = after_request_home id reason t in
    let (t', shard, same, marked) =
      request_all-keeps_shard requests
        (apply_transaction_shard_affinity id reason MultiShardPolicy.reject s).0 u inside' e' in
    (t', shard, same ∙ home.0, marks id t u t' home.0 home.1 marked)
  where
    marks :
        (id : Option ShardId) (t u t' : TransactionShardState)
        → u.current_shard_id ≡ t.current_shard_id
        → u.cross_shard_violation
          ≡ (t.cross_shard_violation || any_other t.current_shard_id ((id, reason) ∷ []))
        → t'.cross_shard_violation
          ≡ (u.cross_shard_violation || any_other u.current_shard_id requests)
        → t'.cross_shard_violation
          ≡ (t.cross_shard_violation || any_other t.current_shard_id ((id, reason) ∷ requests))
    marks none t u t' a b c = ground arith
    marks (some id) t u t' a b c = ground arith
