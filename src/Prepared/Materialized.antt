-- ===== src/Prepared/Materialized.antt =====
-- Which backends hold a statement (crates/pg-kinetic-core/src/protocol/prepare.rs).
use pg_kinetic.Prelude.{
  ℕ, Bool, true, false, ◌&&◌, Option, none, some, List, if◌then◌else◌, ◌==◌, ==_iff, bytes_eq_refl,
  ◌≡◌, ◌≢◌, refl, ap, arith, Bool-cases, inl, inr,
}
use pg_kinetic.Prelude.Tables.{get, put, get-erase, get-put}
use pg_kinetic.Routing.{ShardId}
use pg_kinetic.Wire.SqlState.{SqlState}
use pg_kinetic.Session.Transaction.{summary_shard_id}
use pg_kinetic.Prepared.{
  PreparedStatement, PreparedCatalog, Held, InvalidationScope, same_shard, holds, or_default,
  is_materialized, mark_materialized, set_route_map_generation_id, invalidate_for_sqlstate,
  scope_of, invalidate,
}

same_shard_refl : (id : Option ShardId) → same_shard id id ≡ true
same_shard_refl none = refl
same_shard_refl (some id) = bytes_eq_refl id

-- A statement with a name, of the route map in force.
pub record IsCurrent {A : Type 0} (statement : PreparedStatement A) (c : PreparedCatalog A)
    : Type 0 where
  pub named : statement.cache_key ≢ 0
  pub current : statement.route_map_generation_id ≡ c.route_map_generation_id

-- Whether the backend `b'` still holds what it held after an error from `b`.
abbrev pub survives : InvalidationScope → ℕ → ℕ → Bool → Bool
survives InvalidationScope.nothing b b' held = held
survives InvalidationScope.backend b b' held = if b == b' then false else held
survives InvalidationScope.all_backends b b' held = false

-- An entry of a backend that the table did not have is the empty one.
holds-or_default :
    (k : ℕ) (shard : Option ShardId) (o : Option Held)
    → holds k shard (some (or_default o)) ≡ holds k shard o
unfolding get
holds-or_default k shard none = refl
holds-or_default k shard (some held) = refl

holds-put :
    (k k' : ℕ) (shard shard' : Option ShardId) (held : Held)
    → holds k' shard' (some (put ◌==◌ k (record { shard_id = shard }) held))
      ≡ (if k == k' then same_shard shard shard' else holds k' shard' (some held))
holds-put k k' shard shard' held =
    ground (arith, get-put ◌==◌ ==_iff k k' (record { shard_id = shard }) held)

holds_mark :
    (b b' k k' : ℕ) (shard shard' : Option ShardId) (m : List (ℕ × Held))
    → holds k' shard' (
        get ◌==◌ b'
          (put ◌==◌ b (put ◌==◌ k (record { shard_id = shard }) (or_default (get ◌==◌ b m))) m))
      ≡ (if (b == b') && (k == k')
          then same_shard shard shard'
          else holds k' shard' (get ◌==◌ b' m))
holds_mark b b' k k' shard shard' m =
    let entry : Held = put ◌==◌ k (record { shard_id = shard }) (or_default (get ◌==◌ b m)) in
    let found = get-put ◌==◌ ==_iff b b' entry m in
    let inner = holds-put k k' shard shard' (or_default (get ◌==◌ b m)) in
    let outer = holds-or_default k' shard' (get ◌==◌ b m) in
    elim (Bool-cases (b == b')) [
      | inl same ↦
          let e : get ◌==◌ b m ≡ get ◌==◌ b' m = ap (λ x. get ◌==◌ x m) ((==_iff b b').0 same) in
          ground (arith, found, inner, outer, e, same)
      | inr other ↦ ground (arith, found, other)
    ]

module _ {A : Type 0} where
  -- What a mark changes, seen from another statement of the same route map: with the same key on
  -- the same backend, the shards are compared, and all else is as before.
  pub is_materialized-mark_materialized :
      (b b' : ℕ) (marked asked : PreparedStatement A) (c : PreparedCatalog A)
      → IsCurrent marked c
      → IsCurrent asked c
      → is_materialized b' asked (mark_materialized b marked c) ≡ (
          if (b == b') && (marked.cache_key == asked.cache_key)
          then same_shard
              (summary_shard_id marked.shard_summary)
              (summary_shard_id asked.shard_summary)
          else is_materialized b' asked c)
  unfolding is_materialized mark_materialized
  is_materialized-mark_materialized b b' marked asked c hm ha = ground (
    arith,
    hm.named,
    hm.current,
    ha.named,
    ha.current,
    holds_mark b b' marked.cache_key asked.cache_key (summary_shard_id marked.shard_summary)
        (summary_shard_id asked.shard_summary) c.materialized,
  )

  -- After the route map has changed, no backend counts as holding a named statement.
  pub set_route_map-forgets :
      (id b : ℕ) (statement : PreparedStatement A) (c : PreparedCatalog A)
      → id ≢ c.route_map_generation_id
      → statement.cache_key ≢ 0
      → is_materialized b statement (set_route_map_generation_id id c) ≡ false
  unfolding is_materialized set_route_map_generation_id get
  set_route_map-forgets id b statement c changed named = ground (arith)

  -- An error that names a missing statement drops what that one backend holds, a schema error what
  -- every backend holds, and any other error nothing.
  pub is_materialized-invalidate :
      (state : SqlState) (b b' : ℕ) (statement : PreparedStatement A) (c : PreparedCatalog A)
      → statement.cache_key ≢ 0
      → is_materialized b' statement (invalidate_for_sqlstate state b c).1
        ≡ survives (scope_of state) b b' (is_materialized b' statement c)
  unfolding is_materialized invalidate_for_sqlstate invalidate get
  is_materialized-invalidate state b b' statement c named = by_scope (scope_of state)
    where
      by_scope :
          (scope : InvalidationScope)
          → is_materialized b' statement (invalidate scope b c)
            ≡ survives scope b b' (is_materialized b' statement c)
      by_scope InvalidationScope.nothing = refl
      by_scope InvalidationScope.backend =
          ground (arith, get-erase ◌==◌ ==_iff b b' c.materialized, named)
      by_scope InvalidationScope.all_backends = ground (arith, named)
