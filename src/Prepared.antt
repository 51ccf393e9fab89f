-- ===== src/Prepared.antt =====
-- crates/pg-kinetic-core/src/protocol/prepare.rs: the prepared statements of a session, and the
-- backends that hold them. What `analyze_sql` and `classify` say of a query is recorded and not
-- looked at, so that both are arguments of `upsert`.
pub mod Names
pub mod Materialized
pub mod Keys
pub mod Fresh
pub mod Runs
mod Tests
use pg_kinetic.Prelude.{
  ℕ, zero, suc, ◌+◌, ◌/◌, ◌%◌, ◌^◌, Bool, true, false, ◌||◌, not, Option, none, some, List, [], ◌∷◌,
  ◌++◌, if◌then◌else◌, ltb, ◌==◌, is_some, length, Bytes, codes, bytes_eq,
}
use pg_kinetic.Prelude.Tables.{get, erase, put}
use pg_kinetic.Routing.{ShardId}
use pg_kinetic.Wire.SqlState.{SqlState}
use pg_kinetic.Session.Sql.{SqlCommand}
use pg_kinetic.Session.Transaction.{PreparedShardSummary, summary_shard_id}

-- `nothing` is `None`.
pub data InvalidationScope : Type 0 where
  nothing backend all_backends : InvalidationScope

pub record PreparedStatement (A : Type 0) : Type 0 where
  pub client_name : Bytes
  pub backend_name : Bytes
  pub query : Bytes
  pub analysis : A
  pub command : SqlCommand
  pub parameter_type_oids : List ℕ
  pub route_map_generation_id : ℕ
  pub shard_summary : PreparedShardSummary
  pub cache_key : ℕ

pub record MaterializedStatement : Type 0 where
  pub shard_id : Option ShardId

abbrev pub Held : Type 0
Held = List (ℕ × MaterializedStatement)

pub record PreparedCatalog (A : Type 0) : Type 0 where
  pub session_id : ℕ
  pub next_statement_id : ℕ
  pub route_map_generation_id : ℕ
  pub statements : List (Bytes × PreparedStatement A)
  pub materialized : List (ℕ × Held)
  pub invalidation_counts : List (ℕ × ℕ)

-- `{}` of a u64, which has 20 digits at most; the first argument bounds the digits.
unfoldable pub decimal : ℕ → ℕ → Bytes
decimal zero n = []
decimal (suc fuel) n =
    let front = decimal fuel (n / 10) in
    if ltb n 10 then (48 + n) ∷ [] else front ++ (48 + n % 10) ∷ []

-- `format!("pgk_{}_{}", …)`.
unfoldable pub statement_name : ℕ → ℕ → Bytes
unfolding decimal
statement_name session_id cache_key =
    codes "pgk_" ++ (decimal 20 session_id ++ b'_' ∷ decimal 20 cache_key)

-- The closure of `retain`: a backend that holds nothing more is dropped.
unfoldable pub retain_without : ℕ → List (ℕ × Held) → List (ℕ × Held)
retain_without cache_key [] = []
retain_without cache_key ((backend_id, held) ∷ m) =
    let rest = retain_without cache_key m in
    elim (erase ◌==◌ cache_key held) [ [] ↦ rest | p ∷ held' ↦ (backend_id, p ∷ held') ∷ rest ]

-- `increment_invalidation_count` for each of the keys, with the wrap-around of a u64.
unfoldable pub increment_all : Held → List (ℕ × ℕ) → List (ℕ × ℕ)
increment_all [] counts = counts
increment_all ((cache_key, _) ∷ held) counts = increment_all held (increment cache_key counts)
  where
    increment : ℕ → List (ℕ × ℕ) → List (ℕ × ℕ)
    increment cache_key counts =
        if cache_key == 0
        then counts
        else put ◌==◌ cache_key (bump (get ◌==◌ cache_key counts)) counts
      where
        bump : Option ℕ → ℕ
        bump none = 1
        bump (some n) = (n + 1) % 2 ^ 64

unfoldable pub increment_every : List (ℕ × Held) → List (ℕ × ℕ) → List (ℕ × ℕ)
unfolding increment_all
increment_every [] counts = counts
increment_every ((_, held) ∷ m) counts = increment_every m (increment_all held counts)

abbrev pub same_shard : Option ShardId → Option ShardId → Bool
same_shard none none = true
same_shard (some a) (some b) = bytes_eq a b
same_shard _ _ = false

-- `HashMap::get` of a backend's statements, and the test of the shard.
abbrev pub holds : ℕ → Option ShardId → Option Held → Bool
holds cache_key shard none = false
holds cache_key shard (some held) = elim (get ◌==◌ cache_key held) [
  | none ↦ false
  | some m ↦ same_shard m.shard_id shard
]

-- `entry(backend_id).or_default()`.
abbrev pub or_default : Option Held → Held
or_default none = []
or_default (some held) = held

abbrev pub scope_of : SqlState → InvalidationScope
scope_of SqlState.invalid_sql_statement_name = InvalidationScope.backend
scope_of SqlState.feature_not_supported = InvalidationScope.all_backends
scope_of SqlState.undefined_table = InvalidationScope.all_backends
scope_of SqlState.undefined_column = InvalidationScope.all_backends
scope_of _ = InvalidationScope.nothing

module _ {A : Type 0} where
  unfoldable pub new : ℕ → PreparedCatalog A
  new session_id = record {
    session_id = session_id;
    next_statement_id = 1;
    route_map_generation_id = 0;
    statements = [];
    materialized = [];
    invalidation_counts = [];
  }

  unfoldable pub set_route_map_generation_id : ℕ → PreparedCatalog A → PreparedCatalog A
  set_route_map_generation_id id c =
      if c.route_map_generation_id == id
      then c
      else record c { route_map_generation_id = id; materialized = []; invalidation_counts = [] }

  abbrev pub remove_materialized_statement : ℕ → PreparedCatalog A → PreparedCatalog A
  remove_materialized_statement cache_key c =
      if cache_key == 0
      then c
      else record c { materialized = retain_without cache_key c.materialized }

  -- What is done with the statement that had the name before.
  abbrev pub forget : Option (PreparedStatement A) → PreparedCatalog A → PreparedCatalog A
  forget none c = c
  forget (some previous) c =
      let c' = remove_materialized_statement previous.cache_key c in
      record c' { invalidation_counts = erase ◌==◌ previous.cache_key c'.invalidation_counts }

  unfoldable pub upsert :
      (Bytes → A)
      → (Bytes → SqlCommand)
      → Bytes
      → Bytes
      → List ℕ
      → PreparedCatalog A
      → PreparedStatement A × PreparedCatalog A
  upsert analyze_sql classify client_name query oids c =
      let c1 = forget (get bytes_eq client_name c.statements) c in
      let unnamed = bytes_eq client_name [] in
      let cache_key : ℕ = if unnamed then 0 else c1.next_statement_id in
      let statement : PreparedStatement A = record {
        client_name = client_name;
        backend_name = if unnamed then [] else statement_name c1.session_id cache_key;
        query = query;
        analysis = analyze_sql query;
        command = classify query;
        parameter_type_oids = oids;
        route_map_generation_id = c1.route_map_generation_id;
        shard_summary =
            if unnamed then PreparedShardSummary.current_shard else PreparedShardSummary.deferred;
        cache_key = cache_key;
      } in
      (
        statement,
        record c1 {
          next_statement_id =
              if unnamed then c1.next_statement_id else (c1.next_statement_id + 1) % 2 ^ 64;
          statements = put bytes_eq client_name statement c1.statements;
        },
      )

  unfoldable pub get_statement : Bytes → PreparedCatalog A → Option (PreparedStatement A)
  get_statement client_name c = get bytes_eq client_name c.statements

  abbrev pub is_current_route_map : PreparedStatement A → PreparedCatalog A → Bool
  is_current_route_map statement c = statement.route_map_generation_id == c.route_map_generation_id

  unfoldable pub get_for_current_route_map :
      Bytes → PreparedCatalog A → Option (PreparedStatement A)
  unfolding get_statement
  get_for_current_route_map client_name c = elim (get_statement client_name c) [
    | none ↦ none
    | some statement ↦ if is_current_route_map statement c then some statement else none
  ]

  unfoldable pub remove :
      Bytes → PreparedCatalog A → Option (PreparedStatement A) × PreparedCatalog A
  remove client_name c =
      let found = get bytes_eq client_name c.statements in
      (found, forget found (record c { statements = erase bytes_eq client_name c.statements }))

  abbrev pub any_named : List (Bytes × PreparedStatement A) → Bool
  any_named [] = false
  any_named ((name, _) ∷ t) = not (bytes_eq name []) || any_named t

  abbrev pub has_named_statements : PreparedCatalog A → Bool
  has_named_statements c = any_named c.statements

  unfoldable pub is_materialized : ℕ → PreparedStatement A → PreparedCatalog A → Bool
  unfolding summary_shard_id
  is_materialized backend_id statement c =
      if not (is_current_route_map statement c)
      then false
      else if statement.cache_key == 0
      then true
      else holds statement.cache_key (summary_shard_id statement.shard_summary)
          (get ◌==◌ backend_id c.materialized)

  unfoldable pub mark_materialized : ℕ → PreparedStatement A → PreparedCatalog A → PreparedCatalog A
  unfolding summary_shard_id
  mark_materialized backend_id statement c =
      if (statement.cache_key == 0) || not (is_current_route_map statement c) then c else record c {
        materialized =
            put ◌==◌ backend_id
              (put ◌==◌ statement.cache_key
                (record { shard_id = summary_shard_id statement.shard_summary })
                (or_default (get ◌==◌ backend_id c.materialized)))
              c.materialized;
      }

  abbrev pub invalidate : InvalidationScope → ℕ → PreparedCatalog A → PreparedCatalog A
  unfolding increment_all increment_every
  invalidate InvalidationScope.nothing backend_id c = c
  invalidate InvalidationScope.backend backend_id c = record c {
    materialized = erase ◌==◌ backend_id c.materialized;
    invalidation_counts =
        increment_all (or_default (get ◌==◌ backend_id c.materialized)) c.invalidation_counts;
  }
  invalidate InvalidationScope.all_backends backend_id c = record c {
    materialized = [];
    invalidation_counts = increment_every c.materialized c.invalidation_counts;
  }

  unfoldable pub invalidate_for_sqlstate :
      SqlState → ℕ → PreparedCatalog A → InvalidationScope × PreparedCatalog A
  invalidate_for_sqlstate sqlstate backend_id c =
      (scope_of sqlstate, invalidate (scope_of sqlstate) backend_id c)
