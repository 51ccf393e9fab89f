-- ===== src/Policy/Valid.antt =====
-- Which sets of rules crates/pg-kinetic-core/src/traffic/policy_rule.rs accepts.
use pg_kinetic.Policy.Validate.{
  Validated, PolicyRuleValidationError, then_check, is_empty_match, validate_text_values,
  validate_rule, validate_rules, validate,
}
use pg_kinetic.Policy.{PolicyRule, is_nil, any}
use pg_kinetic.Prelude.{
  ◌≡◌, ◌≢◌, refl, ◌↔◌, Bool, false, none, some, List, [], ◌∷◌, ◌++◌, arith, All, bytes_eq,
  bytes_eq_iff, codes, if◌then◌else◌,
}
use pg_kinetic.Sql.Chars.{Text, is_empty, trim}

-- Each value of a field has something else than white space.
abbrev pub AreFilled : List Text → Type 0
AreFilled = All (λ v. is_empty (trim v) ≡ false)

-- A rule that asks for something, with no blank value and no raw text.
abbrev pub IsValidRule : PolicyRule → Type 0
IsValidRule rule =
    (is_empty_match rule.criteria ≡ false)
    × (AreFilled rule.criteria.databases
        × (AreFilled rule.criteria.users
            × (AreFilled rule.criteria.application_names
                × (AreFilled rule.criteria.routes
                    × (AreFilled rule.criteria.shards
                        × (AreFilled rule.criteria.policy_tags
                            × (rule.criteria.raw_sql_text ≡ [])))))))

-- The ids are not empty, and differ from each other and from those before.
abbrev pub AreDistinct : List Text → List PolicyRule → Type 0
AreDistinct seen [] = Unit
AreDistinct seen (rule ∷ rules) =
    ((rule.id ≢ []) × All (λ s. s ≢ rule.id) seen) × AreDistinct (seen ++ rule.id ∷ []) rules

any-AreFilled :
    (values : List Text) → (any (λ v. is_empty (trim v)) values ≡ false) ↔ AreFilled values
any-AreFilled [] = (λ _. tt, λ _. refl)
any-AreFilled (v ∷ vs) = ground (arith, any-AreFilled vs)

validate_text_values_iff :
    (id field : Text) (values : List Text)
    → (validate_text_values id field values ≡ none) ↔ AreFilled values
unfolding validate_text_values
validate_text_values_iff id field values = ground (arith, any-AreFilled values)

then_check_iff :
    {P Q : Type 0} (v w : Validated)
    → (v ≡ none) ↔ P
    → (w ≡ none) ↔ Q
    → (then_check v w ≡ none) ↔ (P × Q)
then_check_iff none w p q = ground (arith, p, q)
then_check_iff (some e) w p q = ground (arith, p, q)

raw_iff :
    (texts : List Text)
    → ((if is_nil texts then none else some PolicyRuleValidationError.raw_sql_text_unsupported)
        ≡ none)
      ↔ (texts ≡ [])
raw_iff [] = ground arith
raw_iff (t ∷ ts) = ground arith

match_iff :
    {P : Type 0} (id : Text) (b : Bool) (v : Validated)
    → (v ≡ none) ↔ P
    → ((if b then some (PolicyRuleValidationError.empty_match id) else v) ≡ none)
      ↔ ((b ≡ false) × P)
match_iff id b v p = ground (arith, p)

validate_rule_iff : (rule : PolicyRule) → (validate_rule rule ≡ none) ↔ IsValidRule rule
unfolding validate_rule
validate_rule_iff rule =
    let m = rule.criteria in
    let field = validate_text_values_iff rule.id in
    match_iff rule.id (is_empty_match m) _ (
      then_check_iff (validate_text_values rule.id (codes "database") m.databases) _
        (field (codes "database") m.databases)
        (then_check_iff (validate_text_values rule.id (codes "user") m.users) _
          (field (codes "user") m.users)
          (then_check_iff
            (validate_text_values rule.id (codes "application_name") m.application_names) _
            (field (codes "application_name") m.application_names)
            (then_check_iff (validate_text_values rule.id (codes "route") m.routes) _
              (field (codes "route") m.routes)
              (then_check_iff (validate_text_values rule.id (codes "shard") m.shards) _
                (field (codes "shard") m.shards)
                (then_check_iff (validate_text_values rule.id (codes "policy_tag") m.policy_tags) _
                  (field (codes "policy_tag") m.policy_tags) (raw_iff m.raw_sql_text)))))))

seen_iff :
    (seen : List Text) (id : Text)
    → (any (λ s. bytes_eq s id) seen ≡ false) ↔ All (λ s. s ≢ id) seen
seen_iff [] id = (λ _. tt, λ _. refl)
seen_iff (s ∷ ss) id = ground (arith, bytes_eq_iff s id, seen_iff ss id)

id_iff : (id : Text) → (is_empty id ≡ false) ↔ (id ≢ [])
id_iff [] = ground arith
id_iff (c ∷ cs) = ground arith

rule_iff :
    {N S R T : Type 0} (id : Text) (no_id seen : Bool) (v w : Validated)
    → (no_id ≡ false) ↔ N
    → (seen ≡ false) ↔ S
    → (v ≡ none) ↔ R
    → (w ≡ none) ↔ T
    → ((if no_id
          then some PolicyRuleValidationError.empty_rule_id
          else if seen
          then some (PolicyRuleValidationError.duplicate_rule_id id)
          else then_check v w)
        ≡ none)
      ↔ ((N × S) × (R × T))
rule_iff id no_id seen v w n s r t = ground (arith, n, s, then_check_iff v w r t)

validate_rules_iff :
    (seen : List Text) (rules : List PolicyRule)
    → (validate_rules seen rules ≡ none) ↔ (AreDistinct seen rules × All IsValidRule rules)
unfolding validate_rules
validate_rules_iff seen [] = (λ _. (tt, tt), λ _. refl)
validate_rules_iff seen (rule ∷ rules) =
    let (to, from) =
      rule_iff rule.id (is_empty rule.id) (any (λ s. bytes_eq s rule.id) seen) (validate_rule rule)
        (validate_rules (seen ++ rule.id ∷ []) rules) (id_iff rule.id) (seen_iff seen rule.id)
        (validate_rule_iff rule) (validate_rules_iff (seen ++ rule.id ∷ []) rules) in
    (
      λ h. let (here, (valid, (later, all))) = to h in ((here, later), (valid, all)),
      λ ((here, later), (valid, all)). from (here, (valid, (later, all))),
    )

-- A set of rules is accepted exactly when it has a rule, the ids of its rules are not empty and
-- differ, and each rule asks for something, with no blank value and no raw SQL text.
pub validate_iff :
    (rules : List PolicyRule)
    → (validate rules ≡ none) ↔ ((rules ≢ []) × (AreDistinct [] rules × All IsValidRule rules))
unfolding validate
validate_iff [] = ground arith
validate_iff (rule ∷ rules) =
    let (to, from) = validate_rules_iff [] (rule ∷ rules) in
    (λ h. (λ e. absurd (ground arith), to h), λ (_, h). from h)
