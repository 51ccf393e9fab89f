-- ===== src/Sql/Classify/Batch.antt =====
-- The class of a text of several statements, and of a text behind comments:
-- crates/pg-kinetic-core/src/protocol/sql_classify.rs.
use mathlib.Core.Bool.{true≢false}
use pg_kinetic.Prelude.{
  ◌≡◌, ◌≢◌, refl, sym, ap, ◌∙◌, ◌↔◌, ◌⊎◌, inl, inr, Bool, true, false, List, [], ◌∷◌, ◌++◌, arith,
  All,
}
use pg_kinetic.Routing.{transaction_control, routes_to_replica}
use pg_kinetic.Sql.Chars.{Text}
use pg_kinetic.Sql.Classify.Reads.{Reads, classify_single_statement-Reads}
use pg_kinetic.Sql.Classify.{
  classify_single_statement, classify_statements, classify_multi_statement, several, classify_sql,
}
use pg_kinetic.Sql.Separators.Skipped.{Separators, strip-append}
use pg_kinetic.Sql.Separators.{strip_leading_comments_and_whitespace}
use pg_kinetic.Sql.Statements.{split_top_level_statements}

-- The class does not depend on white space and comments in front of the text.
pub classify_sql-append :
    {pre : Text} (sql : Text) → Separators pre → classify_sql (pre ++ sql) ≡ classify_sql sql
unfolding classify_sql
classify_sql-append sql h = rw (strip-append sql h) refl

-- A statement that may stand in a batch for a replica, and a batch with one that reads.
abbrev pub IsHarmless : Text → Type 0
IsHarmless s = Reads s ⊎ (classify_single_statement s ≡ transaction_control)

abbrev pub AnyReads : List Text → Type 0
AnyReads [] = ⊥
AnyReads (s ∷ ss) = Reads s ⊎ AnyReads ss

module _ {P Q : Type 0} {b : Bool} where
  keep_any : (b ≡ true) ⊎ Q → (b ≡ true) ⊎ (P ⊎ Q)
  keep_any (inl e) = inl e
  keep_any (inr q) = inr (inr q)

  drop_any : ¬ P → (b ≡ true) ⊎ (P ⊎ Q) → (b ≡ true) ⊎ Q
  drop_any n (inl e) = inl e
  drop_any n (inr (inl p)) = absurd (n p)
  drop_any n (inr (inr q)) = inr q

seen : {Q : Type 0} → (false ≡ true) ⊎ Q → Q
seen (inl e) = absurd (true≢false (sym e))
seen (inr q) = q

harmful : {P Q : Type 0} → ¬ P → ¬ Q → ¬ (P ⊎ Q)
harmful n m (inl p) = n p
harmful n m (inr q) = m q

-- What the loop does with the class of one statement.
class_cases :
    (saw : Bool) (s : Text) (ss : List Text)
    → ((routes_to_replica (classify_single_statement s) ≡ true)
        × (classify_statements saw (s ∷ ss) ≡ classify_statements true ss))
      ⊎ (((classify_single_statement s ≡ transaction_control)
            × (classify_statements saw (s ∷ ss) ≡ classify_statements saw ss))
          ⊎ ((routes_to_replica (classify_single_statement s) ≡ false)
              × ((classify_single_statement s ≢ transaction_control)
                  × (routes_to_replica (classify_statements saw (s ∷ ss)) ≡ false))))
unfolding classify_statements routes_to_replica
class_cases saw s ss = ground arith

control-Reads : (s : Text) → classify_single_statement s ≡ transaction_control → ¬ Reads s
unfolding routes_to_replica
control-Reads s e r =
    let routes = (classify_single_statement-Reads s).1 r in
    true≢false (sym routes ∙ ap routes_to_replica e)

classify_statements_reads :
    (saw : Bool) (ss : List Text)
    → (routes_to_replica (classify_statements saw ss) ≡ true)
      ↔ (All IsHarmless ss × ((saw ≡ true) ⊎ AnyReads ss))
unfolding classify_statements routes_to_replica
classify_statements_reads saw [] = ground arith
classify_statements_reads saw (s ∷ ss) =
    let (to, from) = classify_single_statement-Reads s in
    elim (class_cases saw s ss) [
      | inl (routes, e) ↦
          let (later, back) = classify_statements_reads true ss in
          (
            λ r. (
              (inl (to routes), (later (sym (ap routes_to_replica e) ∙ r)).0),
              inr (inl (to routes)),
            ),
            λ (all, any). ap routes_to_replica e ∙ back (all.1, inl refl),
          )
      | inr (inl (control, e)) ↦
          let (later, back) = classify_statements_reads saw ss in
          (
            λ r.
                let (all, any) = later (sym (ap routes_to_replica e) ∙ r) in
                ((inr control, all), keep_any any),
            λ (all, any).
                ap routes_to_replica e ∙ back (all.1, drop_any (control-Reads s control) any),
          )
      | inr (inr (no_route, (no_control, e))) ↦ (
        λ r. absurd (true≢false (sym r ∙ e)),
        λ (all, any). absurd (harmful (λ r. true≢false (sym (from r) ∙ no_route)) no_control all.0),
      )
    ]

-- A batch goes to a replica exactly when each of its statements reads or controls a transaction,
-- and one of them reads.
pub classify_multi_statement_reads :
    (statements : List Text)
    → (routes_to_replica (classify_multi_statement statements) ≡ true)
      ↔ (All IsHarmless statements × AnyReads statements)
unfolding classify_multi_statement
classify_multi_statement_reads statements =
    let (to, from) = classify_statements_reads false statements in
    (λ r. let (all, any) = to r in (all, seen any), λ (all, any). from (all, inr any))

-- The texts for a replica: one statement that reads, or a batch of harmless ones that reads.
abbrev pub IsReadText : Text → Type 0
IsReadText sql =
    ((several (split_top_level_statements sql) ≡ true)
      × (All IsHarmless (split_top_level_statements sql)
          × AnyReads (split_top_level_statements sql)))
    ⊎ ((several (split_top_level_statements sql) ≡ false) × Reads sql)

module _ (sql : Text) where
  abbrev s : Text
  s = strip_leading_comments_and_whitespace sql
