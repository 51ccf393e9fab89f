-- ===== src/Policy/Evaluation.antt =====
-- What the evaluation of rules of crates/pg-kinetic-core/src/traffic/policy_rule.rs reports,
-- described without its loop.
use pg_kinetic.Policy.{
  PolicyRule, PolicyRuleContext, PolicyRuleEvalResult, PolicyRuleAction, matches, is_terminal,
  records_audit, apply_rule, terminate, evaluate_from, evaluate,
}
use pg_kinetic.Prelude.{
  ℕ, ◌+◌, ◌≡◌, refl, sym, ap, ◌∙◌, inl, inr, true, false, Option, none, some, List, [], ◌∷◌, ◌++◌,
  arith, map, append_assoc, append-nil, Bool-cases, if◌then◌else◌,
}
use pg_kinetic.Sql.Chars.{Text}

-- A rule with its index.
abbrev pub Indexed : Type 0
Indexed = ℕ × PolicyRule

abbrev pub matching : ℕ → List PolicyRule → PolicyRuleContext → List Indexed
matching index [] context = []
matching index (rule ∷ rules) context = elim (matches rule.criteria context) [
  | true ↦ (index, rule) ∷ matching (index + 1) rules context
  | false ↦ matching (index + 1) rules context
]

-- The rules up to the first that is terminal, which is kept.
abbrev pub up_to_terminal : List Indexed → List Indexed
up_to_terminal [] = []
up_to_terminal ((index, rule) ∷ rest) = elim (is_terminal rule.action) [
  | true ↦ (index, rule) ∷ []
  | false ↦ (index, rule) ∷ up_to_terminal rest
]

abbrev pub audited : List Indexed → List Indexed
audited [] = []
audited ((index, rule) ∷ rest) = elim (records_audit rule.action) [
  | true ↦ (index, rule) ∷ audited rest
  | false ↦ audited rest
]

abbrev pub last : List Indexed → Option Indexed
last [] = none
last (x ∷ []) = some x
last (x ∷ y ∷ rest) = last (y ∷ rest)

abbrev pub rule_id : Indexed → Text
rule_id (index, rule) = rule.id

abbrev pub ending : Option Indexed → Option Indexed
ending none = none
ending (some (index, rule)) = elim (is_terminal rule.action) [
  | true ↦ some (index, rule)
  | false ↦ none
]

abbrev pub index_of : Option Indexed → Option ℕ
index_of none = none
index_of (some (index, rule)) = some index

abbrev pub id_of : Option Indexed → Option Text
id_of none = none
id_of (some (index, rule)) = some rule.id

abbrev pub action_of : Option Indexed → Option PolicyRuleAction
action_of none = none
action_of (some (index, rule)) = some rule.action

-- The report of the rules that were considered: all of them, those with an audit, the last one,
-- and the last one again if it ended the evaluation.
abbrev pub report : List Indexed → PolicyRuleEvalResult
report considered = record {
  matched_rule_indices = map (λ x. x.0) considered;
  matched_rule_ids = map rule_id considered;
  audit_rule_ids = map rule_id (audited considered);
  applied_rule_index = index_of (last considered);
  applied_rule_id = id_of (last considered);
  applied_action = action_of (last considered);
  terminal_rule_index = index_of (ending (last considered));
  terminal_rule_id = id_of (ending (last considered));
}

map_snoc {ℓ κ} :
    {A : Type ℓ} {B : Type κ} (f : A → B) (xs : List A) (x : A)
    → map f (xs ++ x ∷ []) ≡ map f xs ++ f x ∷ []
map_snoc f [] x = refl
map_snoc f (y ∷ ys) x = ap (◌∷◌ (f y)) (map_snoc f ys x)

last_snoc : (xs : List Indexed) (x : Indexed) → last (xs ++ x ∷ []) ≡ some x
last_snoc [] x = refl
last_snoc (y ∷ []) x = refl
last_snoc (y ∷ z ∷ ys) x = last_snoc (z ∷ ys) x

audited_snoc :
    (xs : List Indexed) (index : ℕ) (rule : PolicyRule)
    → map rule_id (audited (xs ++ (index, rule) ∷ [])) ≡ (
        if records_audit rule.action
        then map rule_id (audited xs) ++ rule.id ∷ []
        else map rule_id (audited xs))
audited_snoc [] index rule = ground arith
audited_snoc ((i, r) ∷ xs) index rule = ground (arith, audited_snoc xs index rule)

-- No rule that was considered before ended the evaluation.
abbrev Open : List Indexed → Type 0
Open xs = ending (last xs) ≡ none

ending_open :
    (index : ℕ) (rule : PolicyRule)
    → is_terminal rule.action ≡ false
    → ending (some (index, rule)) ≡ none
ending_open index rule t = rw (ending, t) refl

ending_end :
    (index : ℕ) (rule : PolicyRule)
    → is_terminal rule.action ≡ true
    → ending (some (index, rule)) ≡ some (index, rule)
ending_end index rule t = rw (ending, t) refl

-- The two rows of the report that name a terminal rule are the only ones that tell the steps apart.
report_step :
    (xs : List Indexed) (index : ℕ) (rule : PolicyRule) (end : Option Indexed)
    → ending (some (index, rule)) ≡ end
    → report (xs ++ (index, rule) ∷ []) ≡ record (apply_rule (report xs) index rule) {
      terminal_rule_index = index_of end;
      terminal_rule_id = id_of end;
    }
unfolding apply_rule
report_step xs index rule end e =
    rw
      (
        last_snoc xs (index, rule),
        map_snoc rule_id xs (index, rule),
        map_snoc (λ x. x.0) xs (index, rule),
        audited_snoc xs index rule,
        e,
      )
      refl

report_more :
    (xs : List Indexed) (index : ℕ) (rule : PolicyRule)
    → Open xs
    → is_terminal rule.action ≡ false
    → report (xs ++ (index, rule) ∷ []) ≡ apply_rule (report xs) index rule
unfolding apply_rule
report_more xs index rule o t =
    report_step xs index rule none (ending_open index rule t) ∙ rw o refl

report_end :
    (xs : List Indexed) (index : ℕ) (rule : PolicyRule)
    → is_terminal rule.action ≡ true
    → report (xs ++ (index, rule) ∷ []) ≡ terminate (apply_rule (report xs) index rule) index rule
report_end xs index rule t =
    report_step xs index rule (some (index, rule)) (ending_end index rule t)

abbrev considered : ℕ → List PolicyRule → PolicyRuleContext → List Indexed
considered index rules context = up_to_terminal (matching index rules context)

module _ (index : ℕ) (rule : PolicyRule) (rules : List PolicyRule) (context : PolicyRuleContext)
    (result : PolicyRuleEvalResult) where
  skip :
      matches rule.criteria context ≡ false
      → (evaluate_from index (rule ∷ rules) context result
          ≡ evaluate_from (index + 1) rules context result)
        × (considered index (rule ∷ rules) context ≡ considered (index + 1) rules context)
  unfolding evaluate_from
  skip e = (rw (evaluate_from, e) refl, rw (matching, e) refl)

  end_here :
      matches rule.criteria context ≡ true
      → is_terminal rule.action ≡ true
      → (evaluate_from index (rule ∷ rules) context result
          ≡ terminate (apply_rule result index rule) index rule)
        × (considered index (rule ∷ rules) context ≡ (index, rule) ∷ [])
  unfolding evaluate_from
  end_here e t = (rw (evaluate_from, e, t) refl, rw (matching, e, up_to_terminal, t) refl)

  go_on :
      matches rule.criteria context ≡ true
      → is_terminal rule.action ≡ false
      → (evaluate_from index (rule ∷ rules) context result
          ≡ evaluate_from (index + 1) rules context (apply_rule result index rule))
        × (considered index (rule ∷ rules) context
            ≡ (index, rule) ∷ considered (index + 1) rules context)
  unfolding evaluate_from
  go_on e t = (rw (evaluate_from, e, t) refl, rw (matching, e, up_to_terminal, t) refl)

evaluate_from-report :
    (index : ℕ) (rules : List PolicyRule) (context : PolicyRuleContext) (xs : List Indexed)
    → Open xs
    → evaluate_from index rules context (report xs) ≡ report (xs ++ considered index rules context)
unfolding evaluate_from
evaluate_from-report index [] context xs o = rw (append-nil xs) refl
evaluate_from-report index (rule ∷ rules) context xs o =
    elim (Bool-cases (matches rule.criteria context)) [
      | inr e ↦
          let (run, ref) = skip index rule rules context (report xs) e in
          run
          ∙ evaluate_from-report (index + 1) rules context xs o
          ∙ ap (λ c. report (xs ++ c)) (sym ref)
      | inl e ↦ elim (Bool-cases (is_terminal rule.action)) [
        | inl t ↦
            let (run, ref) = end_here index rule rules context (report xs) e t in
            run ∙ sym (report_end xs index rule t) ∙ ap (λ c. report (xs ++ c)) (sym ref)
        | inr t ↦
            let later = considered (index + 1) rules context in
            let next = xs ++ (index, rule) ∷ [] in
            let (run, ref) = go_on index rule rules context (report xs) e t in
            run
            ∙ ap (evaluate_from (index + 1) rules context) (sym (report_more xs index rule o t))
            ∙ evaluate_from-report (index + 1) rules context next
                (ap ending (last_snoc xs (index, rule)) ∙ ending_open index rule t)
            ∙ ap report (append_assoc xs ((index, rule) ∷ []) later)
            ∙ ap (λ c. report (xs ++ c)) (sym ref)
      ]
    ]

-- The result of an evaluation is the report of the rules that match, up to the first that is
-- terminal: the last of these is applied.
pub evaluate-report :
    (rules : List PolicyRule) (context : PolicyRuleContext)
    → evaluate rules context ≡ report (up_to_terminal (matching 0 rules context))
unfolding evaluate
evaluate-report rules context = evaluate_from-report 0 rules context [] refl
