-- ===== src/Policy.antt =====
-- crates/pg-kinetic-core/src/traffic/policy_rule.rs: the rules of a policy, what they match, and
-- the evaluation of a set of rules.
pub mod Validate
pub mod Evaluation
pub mod Valid
mod Tests
use pg_kinetic.Prelude.{
  ℕ, zero, suc, ◌+◌, Bool, true, false, not, ◌&&◌, ◌||◌, Option, none, some, List, [], ◌∷◌, ◌++◌,
  bytes_eq, if◌then◌else◌,
}
use pg_kinetic.Routing.{BackendRole, QueryClass}
use pg_kinetic.Sql.Chars.{Text}

pub data PolicyHookPoint : Type 0 where
  before_routing after_routing before_checkout : PolicyHookPoint

pub data PolicyDecisionReason : Type 0 where
  policy_denied validation_failed target_id_invalid context_redacted : PolicyDecisionReason

pub record PolicyRuleContext : Type 0 where
  pub database : Text
  pub user : Text
  pub application_name : Option Text
  pub route : Option Text
  pub shard : Option Text
  pub backend_role : BackendRole
  pub query_class : QueryClass
  pub hook_point : PolicyHookPoint
  pub read_only_transaction : Bool
  pub has_shard_key : Bool
  pub policy_tags : List Text

pub record PolicyRuleMatch : Type 0 where
  pub databases : List Text
  pub users : List Text
  pub application_names : List Text
  pub routes : List Text
  pub shards : List Text
  pub backend_roles : List BackendRole
  pub query_classes : List QueryClass
  pub hook_points : List PolicyHookPoint
  pub read_only_transaction : Option Bool
  pub has_shard_key : Option Bool
  pub policy_tags : List Text
  pub raw_sql_text : List Text

-- The `==` of the enumerations.
unfoldable pub role_eq : BackendRole → BackendRole → Bool
role_eq BackendRole.primary BackendRole.primary = true
role_eq BackendRole.replica BackendRole.replica = true
role_eq BackendRole.unknown BackendRole.unknown = true
role_eq _ _ = false

unfoldable pub class_eq : QueryClass → QueryClass → Bool
class_eq QueryClass.write QueryClass.write = true
class_eq QueryClass.read_only QueryClass.read_only = true
class_eq QueryClass.read_candidate QueryClass.read_candidate = true
class_eq QueryClass.transaction_control QueryClass.transaction_control = true
class_eq QueryClass.session_mutation QueryClass.session_mutation = true
class_eq QueryClass.copy QueryClass.copy = true
class_eq QueryClass.unknown QueryClass.unknown = true
class_eq _ _ = false

unfoldable pub hook_eq : PolicyHookPoint → PolicyHookPoint → Bool
hook_eq before_routing before_routing = true
hook_eq after_routing after_routing = true
hook_eq before_checkout before_checkout = true
hook_eq _ _ = false

abbrev bool_eq : Bool → Bool → Bool
bool_eq true b = b
bool_eq false b = not b

module _ {ℓ} {A : Type ℓ} where
  abbrev pub is_nil : List A → Bool
  is_nil [] = true
  is_nil (x ∷ xs) = false

  abbrev pub any : (A → Bool) → List A → Bool
  any p [] = false
  any p (x ∷ xs) = p x || any p xs

unfoldable pub matches_text_field : List Text → Text → Bool
matches_text_field values actual = is_nil values || any (λ v. bytes_eq v actual) values

unfoldable pub matches_optional_text_field : List Text → Option Text → Bool
unfolding matches_text_field
matches_optional_text_field values (some actual) = matches_text_field values actual
matches_optional_text_field values none = is_nil values

unfoldable pub matches_one_of {ℓ} : {A : Type ℓ} → (A → A → Bool) → List A → A → Bool
matches_one_of same values actual = is_nil values || any (λ v. same v actual) values

unfoldable pub matches_optional_bool : Option Bool → Bool → Bool
matches_optional_bool (some expected) actual = bool_eq expected actual
matches_optional_bool none actual = true

unfoldable pub matches_policy_tags : List Text → List Text → Bool
matches_policy_tags expected actual =
    is_nil expected || any (λ a. any (λ e. bytes_eq e a) expected) actual

-- `PolicyRuleMatch::matches`
unfoldable pub matches : PolicyRuleMatch → PolicyRuleContext → Bool
unfolding matches_text_field matches_optional_text_field matches_one_of matches_optional_bool
    matches_policy_tags role_eq class_eq hook_eq
matches m context =
    matches_text_field m.databases context.database
    && matches_text_field m.users context.user
    && matches_optional_text_field m.application_names context.application_name
    && matches_optional_text_field m.routes context.route
    && matches_optional_text_field m.shards context.shard
    && matches_one_of role_eq m.backend_roles context.backend_role
    && matches_one_of class_eq m.query_classes context.query_class
    && matches_one_of hook_eq m.hook_points context.hook_point
    && matches_optional_bool m.read_only_transaction context.read_only_transaction
    && matches_optional_bool m.has_shard_key context.has_shard_key
    && matches_policy_tags m.policy_tags context.policy_tags

-- Each with `audit` and `terminal`, in this order behind its payload.
pub data PolicyRuleAction : Type 0 where
  allow : Bool → Bool → PolicyRuleAction
  deny : PolicyDecisionReason → Bool → Bool → PolicyRuleAction
  require_primary require_replica : Bool → Bool → PolicyRuleAction
  route_override shard_override : Text → Bool → Bool → PolicyRuleAction

unfoldable pub is_terminal : PolicyRuleAction → Bool
is_terminal (allow audit terminal) = terminal
is_terminal (deny reason audit terminal) = terminal
is_terminal (require_primary audit terminal) = terminal
is_terminal (require_replica audit terminal) = terminal
is_terminal (route_override target audit terminal) = terminal
is_terminal (shard_override target audit terminal) = terminal

unfoldable pub records_audit : PolicyRuleAction → Bool
records_audit (allow audit terminal) = audit
records_audit (deny reason audit terminal) = audit
records_audit (require_primary audit terminal) = audit
records_audit (require_replica audit terminal) = audit
records_audit (route_override target audit terminal) = audit
records_audit (shard_override target audit terminal) = audit

pub record PolicyRule : Type 0 where
  pub id : Text
  pub criteria : PolicyRuleMatch
  pub action : PolicyRuleAction

pub record PolicyRuleEvalResult : Type 0 where
  pub matched_rule_indices : List ℕ
  pub matched_rule_ids : List Text
  pub audit_rule_ids : List Text
  pub applied_rule_index : Option ℕ
  pub applied_rule_id : Option Text
  pub applied_action : Option PolicyRuleAction
  pub terminal_rule_index : Option ℕ
  pub terminal_rule_id : Option Text

abbrev pub no_result : PolicyRuleEvalResult
no_result = record {
  matched_rule_indices = [];
  matched_rule_ids = [];
  audit_rule_ids = [];
  applied_rule_index = none;
  applied_rule_id = none;
  applied_action = none;
  terminal_rule_index = none;
  terminal_rule_id = none;
}

-- The body of the loop for a rule that matches, but for its end.
unfoldable pub apply_rule : PolicyRuleEvalResult → ℕ → PolicyRule → PolicyRuleEvalResult
unfolding records_audit
apply_rule result index rule = record {
  matched_rule_indices = result.matched_rule_indices ++ index ∷ [];
  matched_rule_ids = result.matched_rule_ids ++ rule.id ∷ [];
  audit_rule_ids =
      if records_audit rule.action
      then result.audit_rule_ids ++ rule.id ∷ []
      else result.audit_rule_ids;
  applied_rule_index = some index;
  applied_rule_id = some rule.id;
  applied_action = some rule.action;
  terminal_rule_index = result.terminal_rule_index;
  terminal_rule_id = result.terminal_rule_id;
}

abbrev pub terminate : PolicyRuleEvalResult → ℕ → PolicyRule → PolicyRuleEvalResult
terminate result index rule = record result {
  terminal_rule_index = some index;
  terminal_rule_id = some rule.id;
}

unfoldable pub evaluate_from :
    ℕ → List PolicyRule → PolicyRuleContext → PolicyRuleEvalResult → PolicyRuleEvalResult
evaluate_from index [] context result = result
evaluate_from index (rule ∷ rules) context result = elim (matches rule.criteria context) [
  | false ↦ evaluate_from (index + 1) rules context result
  | true ↦ elim (is_terminal rule.action) [
    | true ↦ terminate (apply_rule result index rule) index rule
    | false ↦ evaluate_from (index + 1) rules context (apply_rule result index rule)
  ]
]

unfoldable pub evaluate : List PolicyRule → PolicyRuleContext → PolicyRuleEvalResult
unfolding evaluate_from
evaluate rules context = evaluate_from 0 rules context no_result
