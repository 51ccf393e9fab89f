-- ===== src/Sharding/RouteMap/Report.antt =====
-- When the report on a route map is empty (crates/pg-kinetic-core/src/traffic/sharding.rs).
use pg_kinetic.Prelude.{
  ℕ, ◌<◌, ◌≤◌, Bool, true, false, ◌&&◌, not, Option, none, some, List, [], ◌∷◌, ◌++◌, ltb, ◌==◌,
  is_some, Bytes, All, ◌≡◌, ◌↔◌, refl, arith, Bool-cases, inl, inr, subst, sym,
}
use pg_kinetic.Sharding.{ShardKey}
use pg_kinetic.Sharding.Rules.{with_bounds}
use pg_kinetic.Sharding.RouteMap.{
  RouteMapValidationErrorCode, RouteDefinition, ShardedTableDefinition, ShardRuleDefinition,
  hash_definition, range_definition, list_definition, RouteMapValidationInput, Codes, push_if,
  default_count, table_errors, known, is_valid, rule_errors, rules_errors, no_rules,
  validate_route_map, missing_shard_key_column, missing_shard_rule, conflicting_default_routes,
}
use pg_kinetic.Sharding.RouteMap.Values.{
  values_of, all_values, AllNew, entered, AllNew-append, Within, value_errors-nil_iff,
  value_errors-entered,
}

push_if-nil : (b : Bool) (code : RouteMapValidationErrorCode) → (push_if b code ≡ []) ↔ (b ≡ false)
push_if-nil true code = ground arith
push_if-nil false code = ground arith

append-nil_iff : (xs ys : Codes) → ((xs ++ ys) ≡ []) ↔ ((xs ≡ []) × (ys ≡ []))
append-nil_iff [] ys = (λ h. (refl, h), λ h. h.1)
append-nil_iff (x ∷ xs) ys = (λ h. absurd (ground (arith, h)), λ h. absurd (ground (arith, h.0)))

-- A table that is enabled has the column of its key.
abbrev pub HasColumn : ShardedTableDefinition → Type 0
HasColumn table = table.enabled ≡ true → is_some table.shard_key_column ≡ true

-- The route of a rule is known, a weight is not 0 and bounds make a range.
abbrev pub IsTargeted : List RouteDefinition → ShardRuleDefinition → Type 0
unfolding with_bounds
IsTargeted routes (hash_definition route weight) = (known routes route ≡ true) × (0 < weight)
IsTargeted routes (range_definition route l li u ui) =
    (known routes route ≡ true) × (is_valid (with_bounds l li u ui) ≡ true)
IsTargeted routes (list_definition route values) = known routes route ≡ true

two_iff :
    {P Q : Type 0} (xs ys : Codes) → (xs ≡ []) ↔ P → (ys ≡ []) ↔ Q → ((xs ++ ys) ≡ []) ↔ (P × Q)
two_iff xs ys p q =
    let both = append-nil_iff xs ys in
    (λ h. (p.0 (both.0 h).0, q.0 (both.0 h).1), λ h. both.1 (p.1 h.0, q.1 h.1))

-- An error that stands for a test that fails.
unless_iff :
    (b : Bool) (code : RouteMapValidationErrorCode) → (push_if (not b) code ≡ []) ↔ (b ≡ true)
unless_iff true code = ground arith
unless_iff false code = ground arith

weight_iff : (w : ℕ) (code : RouteMapValidationErrorCode) → (push_if (w == 0) code ≡ []) ↔ (0 < w)
weight_iff w code = elim (Bool-cases (w == 0)) [
  | inl e ↦ rw e (λ h. absurd (ground (arith, h)), λ h. absurd (ground (arith, e)))
  | inr e ↦ rw e (λ h. ground (arith, e), λ h. refl)
]

nothing_seen : (seen : List ShardKey) → Within [] seen
nothing_seen seen v h = ground (arith, h)

rule_errors_iff :
    (routes : List RouteDefinition) (seen : List ShardKey) (rule : ShardRuleDefinition)
    → ((rule_errors routes seen rule).0 ≡ [])
      ↔ (IsTargeted routes rule × AllNew seen (values_of rule))
unfolding rule_errors IsTargeted
rule_errors_iff routes seen (hash_definition route weight) =
    let both = two_iff _ _ (unless_iff (known routes route) _) (weight_iff weight _) in
    (λ h. (both.0 h, tt), λ h. both.1 h.0)
rule_errors_iff routes seen (range_definition route l li u ui) =
    let both =
      two_iff _ _ (unless_iff (known routes route) _)
        (unless_iff (is_valid (with_bounds l li u ui)) _) in
    (λ h. (both.0 h, tt), λ h. both.1 h.0)
rule_errors_iff routes seen (list_definition route values) =
    two_iff _ _ (unless_iff (known routes route) _)
      (value_errors-nil_iff [] seen values (nothing_seen seen))

rule_errors-entered :
    (routes : List RouteDefinition) (seen : List ShardKey) (rule : ShardRuleDefinition)
    → AllNew seen (values_of rule)
    → (rule_errors routes seen rule).1 ≡ entered seen (values_of rule)
unfolding rule_errors
rule_errors-entered routes seen (hash_definition route weight) h = refl
rule_errors-entered routes seen (range_definition route l li u ui) h = refl
rule_errors-entered routes seen (list_definition route values) h =
    value_errors-entered [] seen values (nothing_seen seen) h

rules_errors_iff :
    (routes : List RouteDefinition) (seen : List ShardKey) (rules : List ShardRuleDefinition)
    → (rules_errors routes seen rules ≡ [])
      ↔ (All (IsTargeted routes) rules × AllNew seen (all_values rules))
unfolding rules_errors
rules_errors_iff routes seen [] = (λ h. (tt, tt), λ h. refl)
rules_errors_iff routes seen (rule ∷ rules) =
    let both =
      append-nil_iff (rule_errors routes seen rule).0
        (rules_errors routes (rule_errors routes seen rule).1 rules) in
    let one = rule_errors_iff routes seen rule in
    let split = AllNew-append seen (values_of rule) (all_values rules) in
    let next = rules_errors_iff routes (entered seen (values_of rule)) rules in
    (
      λ h.
          let (targeted, fresh) = one.0 (both.0 h).0 in
          let (all, later) = next.0 (
            subst (λ s. rules_errors routes s rules ≡ [])
              (rule_errors-entered routes seen rule fresh) (both.0 h).1) in
          ((targeted, all), split.1 (fresh, later)),
      λ h.
          let (fresh, later) = split.0 h.1 in
          both.1 (
            one.1 (h.0.0, fresh),
            subst (λ s. rules_errors routes s rules ≡ [])
                (sym (rule_errors-entered routes seen rule fresh)) (next.1 (h.0.1, later)),
          ),
    )

table_errors_iff :
    (tables : List ShardedTableDefinition) → (table_errors tables ≡ []) ↔ All HasColumn tables
table_errors_iff [] = (λ h. tt, λ h. refl)
table_errors_iff (t ∷ tables) =
    two_iff _ _ (column t.enabled t.shard_key_column) (table_errors_iff tables)
  where
    column :
        (enabled : Bool) (key : Option Bytes)
        → (push_if (enabled && not (is_some key)) missing_shard_key_column ≡ [])
          ↔ (enabled ≡ true → is_some key ≡ true)
    column true (some k) = (λ h e. refl, λ h. refl)
    column true none = (λ h. absurd (ground (arith, h)), λ h. absurd (ground (arith, h refl)))
    column false key = (λ h e. absurd (ground (arith, e)), λ h. refl)

-- What a route map has to be.
pub record IsRouteMap (m : RouteMapValidationInput) : Type 0 where
  pub one_default : default_count m.routes ≤ 1
  pub columns : All HasColumn m.sharded_tables
  pub some_rule : no_rules m.shard_rules ≡ false
  pub targeted : All (IsTargeted m.routes) m.shard_rules
  pub no_duplicate : AllNew [] (all_values m.shard_rules)

count_iff : (n : ℕ) (code : RouteMapValidationErrorCode) → (push_if (ltb 1 n) code ≡ []) ↔ (n ≤ 1)
count_iff n code = elim (Bool-cases (ltb 1 n)) [
  | inl e ↦ rw e (λ h. absurd (ground (arith, h)), λ h. absurd (ground (arith, e)))
  | inr e ↦ rw e (λ h. ground (arith, e), λ h. refl)
]

-- The report on a route map is empty exactly when at most one route is the default, each enabled table
-- has a shard key column, there is a rule, each rule has a known route and a weight or bounds that are
-- valid, and no value is listed twice in the whole map.
pub validate_route_map_iff :
    (route_map : RouteMapValidationInput)
    → (validate_route_map route_map ≡ []) ↔ IsRouteMap route_map
unfolding validate_route_map
validate_route_map_iff m =
    let all = two_iff _ _ (count_iff (default_count m.routes) conflicting_default_routes) (
      two_iff _ _ (table_errors_iff m.sharded_tables) (
        two_iff _ _ (push_if-nil (no_rules m.shard_rules) missing_shard_rule)
          (rules_errors_iff m.routes [] m.shard_rules))) in
    (
      λ h. record {
        one_default = (all.0 h).0;
        columns = (all.0 h).1.0;
        some_rule = (all.0 h).1.1.0;
        targeted = (all.0 h).1.1.1.0;
        no_duplicate = (all.0 h).1.1.1.1;
      },
      λ h. all.1 (h.one_default, (h.columns, (h.some_rule, (h.targeted, h.no_duplicate)))),
    )
