-- ===== src/Policy/Tests.antt =====
-- Rules of crates/pg-kinetic-core/src/traffic/policy_rule.rs, evaluated and validated.
use pg_kinetic.Policy.Evaluation.{matching, up_to_terminal, report, evaluate-report}
use pg_kinetic.Policy.Valid.{AreDistinct, IsValidRule, validate_iff}
use pg_kinetic.Policy.Validate.{PolicyRuleValidationError, validate_rule, validate_rules, validate}
use pg_kinetic.Policy.{
  before_routing, policy_denied, PolicyRuleContext, PolicyRuleMatch, allow, deny, require_primary,
  PolicyRule, matches, is_terminal, apply_rule, evaluate,
}
use pg_kinetic.Prelude.{◌≡◌, ◌≢◌, ◌↔◌, refl, true, false, some, none, List, [], ◌∷◌, codes, All}
use pg_kinetic.Sql.Chars.{trim}
use pg_kinetic.Routing.{BackendRole, QueryClass}

abbrev anything : PolicyRuleMatch
anything = record {
  databases = [];
  users = [];
  application_names = [];
  routes = [];
  shards = [];
  backend_roles = [];
  query_classes = [];
  hook_points = before_routing ∷ [];
  read_only_transaction = none;
  has_shard_key = none;
  policy_tags = [];
  raw_sql_text = [];
}

abbrev rules : List PolicyRule
rules =
    record { id = codes "audit"; criteria = anything; action = allow true false }
    ∷ record {
      id = codes "writes";
      criteria = record anything { query_classes = QueryClass.write ∷ [] };
      action = require_primary false true;
    }
    ∷ record {
      id = codes "bob";
      criteria = record anything { users = codes "bob" ∷ [] };
      action = deny policy_denied false true;
    }
    ∷ []

abbrev context : PolicyRuleContext
context = record {
  database = codes "app";
  user = codes "bob";
  application_name = none;
  route = none;
  shard = none;
  backend_role = BackendRole.unknown;
  query_class = QueryClass.read_candidate;
  hook_point = before_routing;
  read_only_transaction = false;
  has_shard_key = false;
  policy_tags = [];
}

bob_is_denied : (evaluate rules context).applied_action ≡ some (deny policy_denied false true)
unfolding evaluate matches is_terminal apply_rule
bob_is_denied = refl

evaluate-report_example :
    evaluate rules context ≡ report (up_to_terminal (matching 0 rules context))
evaluate-report_example = evaluate-report rules context

validate_iff_example :
    (validate rules ≡ none) ↔ ((rules ≢ []) × (AreDistinct [] rules × All IsValidRule rules))
validate_iff_example = validate_iff rules

-- A value of one no-break space is blank.
blank_value :
    validate (
      record {
        id = codes "blank";
        criteria = record anything { users = (160 ∷ []) ∷ [] };
        action = allow true false;
      }
      ∷ [])
    ≡ some (PolicyRuleValidationError.empty_match_value (codes "blank") (codes "user"))
unfolding validate validate_rule validate_rules trim
blank_value = refl
