-- ===== src/Policy/Validate.antt =====
-- crates/pg-kinetic-core/src/traffic/policy_rule.rs: the validation of a set of rules.
use pg_kinetic.Policy.{PolicyRuleMatch, PolicyRule, is_nil, any}
use pg_kinetic.Prelude.{
  Bool, not, ◌&&◌, Option, none, some, List, [], ◌∷◌, ◌++◌, bytes_eq, codes, is_some, if◌then◌else◌,
}
use pg_kinetic.Sql.Chars.{Text, is_empty, trim}

pub data PolicyRuleValidationError : Type 0 where
  empty_rule_set empty_rule_id : PolicyRuleValidationError
  duplicate_rule_id empty_match : Text → PolicyRuleValidationError
  empty_match_value : Text → Text → PolicyRuleValidationError
  raw_sql_text_unsupported : PolicyRuleValidationError

-- `Result<(), PolicyRuleValidationError>`: none is `Ok(())`.
abbrev pub Validated : Type 0
Validated = Option PolicyRuleValidationError

-- `?`: the first error, if there is one.
abbrev pub then_check : Validated → Validated → Validated
then_check none next = next
then_check (some e) next = some e

unfoldable pub is_empty_match : PolicyRuleMatch → Bool
is_empty_match m =
    is_nil m.databases
    && is_nil m.users
    && is_nil m.application_names
    && is_nil m.routes
    && is_nil m.shards
    && is_nil m.backend_roles
    && is_nil m.query_classes
    && is_nil m.hook_points
    && not (is_some m.read_only_transaction)
    && not (is_some m.has_shard_key)
    && is_nil m.policy_tags
    && is_nil m.raw_sql_text

unfoldable pub validate_text_values : Text → Text → List Text → Validated
validate_text_values id field values =
    if any (λ v. is_empty (trim v)) values then some (empty_match_value id field) else none

unfoldable pub validate_rule : PolicyRule → Validated
unfolding is_empty_match validate_text_values
validate_rule rule =
    let m = rule.criteria in
    if is_empty_match m
    then some (empty_match rule.id)
    else then_check (validate_text_values rule.id (codes "database") m.databases) (
        then_check (validate_text_values rule.id (codes "user") m.users) (
          then_check (validate_text_values rule.id (codes "application_name") m.application_names) (
            then_check (validate_text_values rule.id (codes "route") m.routes) (
              then_check (validate_text_values rule.id (codes "shard") m.shards) (
                then_check (validate_text_values rule.id (codes "policy_tag") m.policy_tags)
                  (if is_nil m.raw_sql_text then none else some raw_sql_text_unsupported))))))

unfoldable pub validate_rules : List Text → List PolicyRule → Validated
unfolding validate_rule
validate_rules seen [] = none
validate_rules seen (rule ∷ rules) =
    if is_empty rule.id
    then some empty_rule_id
    else if any (λ s. bytes_eq s rule.id) seen
    then some (duplicate_rule_id rule.id)
    else then_check (validate_rule rule) (validate_rules (seen ++ rule.id ∷ []) rules)

unfoldable pub validate : List PolicyRule → Validated
unfolding validate_rules
validate [] = some empty_rule_set
validate (rule ∷ rules) = validate_rules [] (rule ∷ rules)
