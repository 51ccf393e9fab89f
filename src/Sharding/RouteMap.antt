-- ===== src/Sharding/RouteMap.antt =====
-- The validation of a route map (crates/pg-kinetic-core/src/traffic/sharding.rs). A report is the
-- codes of its errors; their messages are left out.
pub mod Values
pub mod Report
use pg_kinetic.Prelude.{
  ℕ, ◌+◌, Bool, true, false, ◌&&◌, ◌||◌, not, Option, none, some, List, [], ◌∷◌, ◌++◌, map,
  if◌then◌else◌, ltb, ◌==◌, is_some, length, Bytes, bytes_eq,
}
use pg_kinetic.Sharding.{ShardKey, shard_key_eq, any_rule, Validated, valid, invalid}
use pg_kinetic.Sharding.Rules.{with_bounds}

pub data RouteMapValidationErrorCode : Type 0 where
  unknown_shard_target missing_shard_rule missing_shard_key_column : RouteMapValidationErrorCode
  invalid_hash_weight invalid_range_boundaries duplicate_list_value : RouteMapValidationErrorCode
  conflicting_default_routes : RouteMapValidationErrorCode

pub record RouteDefinition : Type 0 where
  pub name : Bytes
  pub priority : Option ℕ
  pub is_default : Bool

pub record ShardedTableDefinition : Type 0 where
  pub name : Bytes
  pub enabled : Bool
  pub shard_key_column : Option Bytes

pub data ShardRuleDefinition : Type 0 where
  hash_definition : Bytes → ℕ → ShardRuleDefinition
  range_definition : Bytes → ShardKey → Bool → ShardKey → Bool → ShardRuleDefinition
  list_definition : Bytes → List ShardKey → ShardRuleDefinition

pub record RouteMapValidationInput : Type 0 where
  pub routes : List RouteDefinition
  pub sharded_tables : List ShardedTableDefinition
  pub shard_rules : List ShardRuleDefinition

abbrev pub Codes : Type 0
Codes = List RouteMapValidationErrorCode

-- `push` where the test holds.
abbrev pub push_if : Bool → RouteMapValidationErrorCode → Codes
push_if true code = code ∷ []
push_if false code = []

abbrev pub default_count : List RouteDefinition → ℕ
default_count [] = 0
default_count (route ∷ routes) =
    let rest = default_count routes in if route.is_default then rest + 1 else rest

abbrev pub table_errors : List ShardedTableDefinition → Codes
table_errors [] = []
table_errors (table ∷ tables) =
    push_if (table.enabled && not (is_some table.shard_key_column)) missing_shard_key_column
    ++ table_errors tables

abbrev pub known : List RouteDefinition → Bytes → Bool
known routes name = any_rule (λ (route : RouteDefinition). bytes_eq route.name name) routes

abbrev pub is_valid : {A : Type 0} → Validated A → Bool
is_valid (valid _) = true
is_valid (invalid _) = false

-- A set of keys is a list; a key that is there is not inserted again.
abbrev pub contains : List ShardKey → ShardKey → Bool
contains set value = any_rule (λ v. shard_key_eq v value) set

abbrev pub insert_key : ShardKey → List ShardKey → List ShardKey
insert_key value set = if contains set value then set else value ∷ set

-- The loop over the values of a rule: the errors, and the values that were seen in the map.
unfoldable pub value_errors : List ShardKey → List ShardKey → List ShardKey → Codes × List ShardKey
value_errors rule_values list_values [] = ([], list_values)
value_errors rule_values list_values (value ∷ values) =
    let rest = value_errors (insert_key value rule_values) (insert_key value list_values) values in
    (
      push_if (contains rule_values value || contains list_values value) duplicate_list_value
          ++ rest.0,
      rest.1,
    )

unfoldable pub rule_errors :
    List RouteDefinition → List ShardKey → ShardRuleDefinition → Codes × List ShardKey
unfolding value_errors with_bounds
rule_errors routes seen (hash_definition route weight) = (
  push_if (not (known routes route)) unknown_shard_target
      ++ push_if (weight == 0) invalid_hash_weight,
  seen,
)
rule_errors routes seen (range_definition route lower lower_inclusive upper upper_inclusive) = (
  push_if (not (known routes route)) unknown_shard_target
      ++ push_if (not (is_valid (with_bounds lower lower_inclusive upper upper_inclusive)))
          invalid_range_boundaries,
  seen,
)
rule_errors routes seen (list_definition route values) = (
  push_if (not (known routes route)) unknown_shard_target ++ (value_errors [] seen values).0,
  (value_errors [] seen values).1,
)

unfoldable pub rules_errors :
    List RouteDefinition → List ShardKey → List ShardRuleDefinition → Codes
unfolding rule_errors
rules_errors routes seen [] = []
rules_errors routes seen (rule ∷ rules) =
    let found = rule_errors routes seen rule in found.0 ++ rules_errors routes found.1 rules

abbrev pub no_rules : List ShardRuleDefinition → Bool
no_rules [] = true
no_rules (_ ∷ _) = false

unfoldable pub validate_route_map : RouteMapValidationInput → Codes
unfolding rules_errors
validate_route_map route_map =
    push_if (ltb 1 (default_count route_map.routes)) conflicting_default_routes
    ++ (table_errors route_map.sharded_tables
        ++ (push_if (no_rules route_map.shard_rules) missing_shard_rule
            ++ rules_errors route_map.routes [] route_map.shard_rules))
