-- ===== src/Sharding/Tests.antt =====
-- Shard rules at concrete keys.
use pg_kinetic.Prelude.{true, false, some, none, [], ◌∷◌, ◌≡◌, ◌↔◌, refl, codes}
use pg_kinetic.Prelude.Tables.{get, erase}
use pg_kinetic.Sharding.{text, text_key, integer_key, valid, compare_shard_keys, cmp_i64}
use pg_kinetic.Sharding.Rules.{
  RangeShardRule, range_rule_matches, range_lookup, validate_range_rules, any_overlap,
  range_rules_overlap, range_is_before, ListShardRule, list_lookup, list_rule_matches,
  validate_list_rules, see_rules, see_values,
}
use pg_kinetic.Sharding.Strategy.{HashShardRule, hash_rule_new}
use pg_kinetic.Sharding.RouteMap.{
  RouteMapValidationInput, hash_definition, range_definition, list_definition, validate_route_map,
  duplicate_list_value, rules_errors, rule_errors, value_errors,
}
use pg_kinetic.Sharding.Rules.{with_bounds}
use pg_kinetic.Sharding.RouteMap.Report.{IsRouteMap, validate_route_map_iff}
use pg_kinetic.Sharding.Ranges.{range_lookup_iff}
use pg_kinetic.Sharding.Lists.{list_lookup_iff}

-- [10, 20) behind [-5, 10); the first stands second.
abbrev high_range : RangeShardRule
high_range = record {
  lower_bound = integer_key 10;
  lower_inclusive = true;
  upper_bound = integer_key 20;
  upper_inclusive = false;
}

abbrev low_range : RangeShardRule
low_range = record {
  lower_bound = integer_key 0xfffffffffffffffb;
  lower_inclusive = true;
  upper_bound = integer_key 10;
  upper_inclusive = false;
}

two_ranges-valid : validate_range_rules (high_range ∷ low_range ∷ []) ≡ none
unfolding validate_range_rules any_overlap range_rules_overlap range_is_before compare_shard_keys
    cmp_i64
two_ranges-valid = refl

range_lookup_iff_example :
    (range_lookup (high_range ∷ low_range ∷ []) (integer_key 10) ≡ some 0)
    ↔ (range_rule_matches high_range (integer_key 10) ≡ true)
range_lookup_iff_example =
    range_lookup_iff (high_range ∷ low_range ∷ []) (integer_key 10) 0 high_range two_ranges-valid
      refl

abbrev first_list : ListShardRule
first_list = record { values = text_key (codes "eu") ∷ text_key (codes "uk") ∷ [] }

abbrev second_list : ListShardRule
second_list = record { values = text_key (codes "us") ∷ text_key (codes "us") ∷ [] }

two_lists-valid : validate_list_rules (first_list ∷ second_list ∷ []) ≡ none
unfolding validate_list_rules see_rules see_values get erase
two_lists-valid = refl

list_lookup_iff_example :
    (list_lookup (first_list ∷ second_list ∷ []) (text_key (codes "us")) ≡ some 1)
    ↔ (list_rule_matches second_list (text_key (codes "us")) ≡ true)
list_lookup_iff_example =
    list_lookup_iff (first_list ∷ second_list ∷ []) (text_key (codes "us")) 1 second_list
      two_lists-valid refl

abbrev eight_buckets : HashShardRule
eight_buckets = record { shard_key_type = text; bucket_count = 8 }

eight_buckets-valid : hash_rule_new text 8 ≡ valid eight_buckets
unfolding hash_rule_new
eight_buckets-valid = refl

-- A rule of each kind; the list says `eu` twice.
abbrev repeated_map : RouteMapValidationInput
repeated_map = record {
  routes = record { name = codes "a"; priority = none; is_default = true } ∷ [];
  sharded_tables =
      record { name = codes "t"; enabled = true; shard_key_column = some (codes "id") } ∷ [];
  shard_rules =
      hash_definition (codes "a") 3
      ∷ range_definition (codes "a") (integer_key 1) true (integer_key 5) true
      ∷ list_definition (codes "a") (text_key (codes "eu") ∷ text_key (codes "eu") ∷ [])
      ∷ [];
}

validate_route_map_iff_example : (validate_route_map repeated_map ≡ []) ↔ IsRouteMap repeated_map
validate_route_map_iff_example = validate_route_map_iff repeated_map

repeated_map-report : validate_route_map repeated_map ≡ duplicate_list_value ∷ []
unfolding validate_route_map rules_errors rule_errors value_errors with_bounds compare_shard_keys
    cmp_i64
repeated_map-report = refl
