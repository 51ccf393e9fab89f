-- ===== src/Sharding/Rules.antt =====
-- The rules by range and by list, their validation and the search for the rule of a key
-- (crates/pg-kinetic-core/src/traffic/sharding.rs).
use Prim.Native.Nat.{Ordering, lt, eq, gt}
use pg_kinetic.Prelude.{
  ℕ, ◌+◌, Bool, true, false, ◌&&◌, ◌||◌, not, Option, none, some, List, [], ◌∷◌, if◌then◌else◌,
  ◌==◌,
}
use pg_kinetic.Prelude.Tables.{get, put}
use pg_kinetic.Sharding.{
  ShardKeyType, ShardKey, ShardValidationError, Validated, key_type_eq, key_type, shard_key_eq,
  compare_shard_keys, first_index, type_error, any_rule, text, empty_shard_list, empty_shard_set,
  key_type_mismatch, invalid_range_bounds, overlapping_shard_rules, valid, invalid,
}

pub record RangeShardRule : Type 0 where
  pub lower_bound : ShardKey
  pub lower_inclusive : Bool
  pub upper_bound : ShardKey
  pub upper_inclusive : Bool

-- The tests of `with_bounds` behind that of the types.
abbrev pub bounded : Option Ordering → RangeShardRule → Validated RangeShardRule
bounded (some gt) rule = invalid invalid_range_bounds
bounded (some eq) rule =
    if not (rule.lower_inclusive && rule.upper_inclusive)
    then invalid invalid_range_bounds
    else valid rule
bounded _ rule = valid rule

unfoldable pub with_bounds : ShardKey → Bool → ShardKey → Bool → Validated RangeShardRule
unfolding compare_shard_keys
with_bounds lower_bound lower_inclusive upper_bound upper_inclusive =
    if not (key_type_eq (key_type lower_bound) (key_type upper_bound))
    then invalid (key_type_mismatch (key_type lower_bound) (key_type upper_bound))
    else bounded (compare_shard_keys lower_bound upper_bound) (record {
      lower_bound = lower_bound;
      lower_inclusive = lower_inclusive;
      upper_bound = upper_bound;
      upper_inclusive = upper_inclusive;
    })

abbrev pub rule_type : RangeShardRule → ShardKeyType
rule_type rule = key_type rule.lower_bound

abbrev pub above : Option Ordering → Bool → Bool
above (some gt) inclusive = true
above (some eq) inclusive = inclusive
above _ inclusive = false

unfoldable pub boundary_satisfies_lower : ShardKey → Bool → ShardKey → Bool
unfolding compare_shard_keys
boundary_satisfies_lower boundary inclusive key = above (compare_shard_keys key boundary) inclusive

abbrev pub below : Option Ordering → Bool → Bool
below (some lt) inclusive = true
below (some eq) inclusive = inclusive
below _ inclusive = false

unfoldable pub boundary_satisfies_upper : ShardKey → Bool → ShardKey → Bool
unfolding compare_shard_keys
boundary_satisfies_upper boundary inclusive key = below (compare_shard_keys key boundary) inclusive

unfoldable pub range_rule_matches : RangeShardRule → ShardKey → Bool
unfolding boundary_satisfies_lower boundary_satisfies_upper
range_rule_matches rule key =
    if not (key_type_eq (key_type key) (rule_type rule))
    then false
    else boundary_satisfies_lower rule.lower_bound rule.lower_inclusive key
      && boundary_satisfies_upper rule.upper_bound rule.upper_inclusive key

unfoldable pub range_lookup : List RangeShardRule → ShardKey → Option ℕ
unfolding range_rule_matches
range_lookup rules key = first_index (λ rule. range_rule_matches rule key) 0 rules

unfoldable pub range_is_before : RangeShardRule → RangeShardRule → Bool
unfolding compare_shard_keys
range_is_before left right =
    below (compare_shard_keys left.upper_bound right.lower_bound)
      (not (left.upper_inclusive && right.lower_inclusive))

unfoldable pub range_rules_overlap : RangeShardRule → RangeShardRule → Bool
unfolding range_is_before
range_rules_overlap left right =
    not (range_is_before left right) && not (range_is_before right left)

-- The two nested loops.
unfoldable pub any_overlap : List RangeShardRule → Bool
unfolding range_rules_overlap
any_overlap [] = false
any_overlap (left ∷ rules) =
    any_rule (λ right. range_rules_overlap left right) rules || any_overlap rules

abbrev pub overlap_error : Bool → Option ShardValidationError → Option ShardValidationError
overlap_error overlap (some e) = some e
overlap_error overlap none = if overlap then some overlapping_shard_rules else none

-- `none` is `Ok(())`.
unfoldable pub validate_range_rules : List RangeShardRule → Option ShardValidationError
unfolding any_overlap
validate_range_rules [] = some empty_shard_set
validate_range_rules (rule ∷ rules) =
    overlap_error (any_overlap (rule ∷ rules)) (type_error rule_type (rule_type rule) rules)

pub record ListShardRule : Type 0 where
  pub values : List ShardKey

unfoldable pub list_rule_new : List ShardKey → Validated ListShardRule
list_rule_new [] = invalid empty_shard_list
list_rule_new (value ∷ values) = elim (type_error key_type (key_type value) values) [
  | some e ↦ invalid e
  | none ↦ valid (record { values = value ∷ values })
]

-- `self.values[0].key_type()`, which would panic on a list without values.
abbrev pub list_type : ListShardRule → Option ShardKeyType
list_type rule = type_of_first rule.values
  where
    type_of_first : List ShardKey → Option ShardKeyType
    type_of_first [] = none
    type_of_first (value ∷ _) = some (key_type value)

abbrev pub same_type : Option ShardKeyType → ShardKeyType → Bool
same_type none t = false
same_type (some u) t = key_type_eq u t

-- The closure of `list_lookup`. A rule has values, so its type is there.
unfoldable pub list_rule_matches : ListShardRule → ShardKey → Bool
list_rule_matches rule key =
    same_type (list_type rule) (key_type key)
    && any_rule (λ value. shard_key_eq value key) rule.values

unfoldable pub list_lookup : List ListShardRule → ShardKey → Option ℕ
unfolding list_rule_matches
list_lookup rules key = first_index (λ rule. list_rule_matches rule key) 0 rules

abbrev pub SeenValues : Type 0
SeenValues = List (ShardKey × ℕ)

-- The values of the rule of index `rule_index`, with those of it that came before; `none` is the
-- error.
unfoldable pub see_values : ℕ → List ShardKey → List ShardKey → SeenValues → Option SeenValues
see_values rule_index [] rule_values seen = some seen
see_values rule_index (value ∷ values) rule_values seen =
    let repeated = see_values rule_index values rule_values seen in
    let added =
      see_values rule_index values (value ∷ rule_values) (put shard_key_eq value rule_index seen) in
    if any_rule (λ v. shard_key_eq v value) rule_values
    then repeated
    else elim (get shard_key_eq value seen) [
      | none ↦ added
      | some previous ↦ if previous == rule_index then added else none
    ]

unfoldable pub see_rules : ℕ → List ListShardRule → SeenValues → Option SeenValues
unfolding see_values
see_rules rule_index [] seen = some seen
see_rules rule_index (rule ∷ rules) seen = elim (see_values rule_index rule.values [] seen) [
  | none ↦ none
  | some after ↦ see_rules (rule_index + 1) rules after
]

abbrev pub type_or : Option ShardKeyType → ShardKeyType → ShardKeyType
type_or none t = t
type_or (some u) t = u

-- A rule has values, so its type is there.
abbrev pub list_type_error : ShardKeyType → List ListShardRule → Option ShardValidationError
list_type_error expected [] = none
list_type_error expected (rule ∷ rules) =
    let rest = list_type_error expected rules in
    if not (same_type (list_type rule) expected)
    then some (key_type_mismatch expected (type_or (list_type rule) expected))
    else rest

abbrev pub seen_error :
    Option ShardValidationError → Option SeenValues → Option ShardValidationError
seen_error (some e) seen = some e
seen_error none none = some overlapping_shard_rules
seen_error none (some seen) = none

-- `none` is `Ok(())`.
unfoldable pub validate_list_rules : List ListShardRule → Option ShardValidationError
unfolding see_rules
validate_list_rules [] = some empty_shard_set
validate_list_rules (rule ∷ rules) =
    seen_error (list_type_error (type_or (list_type rule) text) rules)
      (see_rules 0 (rule ∷ rules) [])
