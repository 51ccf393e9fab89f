-- ===== src/Sql/Classify/Plain.antt =====
-- The statements without `explain` that crates/pg-kinetic-core/src/protocol/sql_classify.rs gives
-- to a replica.
use pg_kinetic.Prelude.{
  ◌≡◌, refl, ◌↔◌, ◌⊎◌, inl, Bool, true, false, ◌||◌, [], ◌∷◌, arith, codes, if◌then◌else◌,
}
use pg_kinetic.Routing.{
  QueryClass, write, read_candidate, transaction_control, session_mutation, unknown,
  routes_to_replica,
}
use pg_kinetic.Sql.Chars.{Text, normalize}
use pg_kinetic.Sql.Classify.{
  contains_data_modifying_cte_normalized, contains_select_side_effects, is_transaction_control,
  classify_copy, is_session_mutation, is_write_statement, classify_unexplained,
}
use pg_kinetic.Sql.Words.{keyword_is, contains_words_ignore_ascii_case}

-- `copy` to the client, and not from it.
abbrev pub IsCopyOut : Text → Type 0
IsCopyOut sql =
    (keyword_is sql (codes "copy") ≡ true)
    × ((contains_words_ignore_ascii_case sql (codes "from" ∷ codes "stdin" ∷ []) ≡ false)
        × (contains_words_ignore_ascii_case sql (codes "to" ∷ codes "stdout" ∷ []) ≡ true))

-- `select` with nothing that writes or locks.
abbrev pub IsSelect : Text → Type 0
IsSelect sql =
    (keyword_is sql (codes "select") ≡ true)
    × ((contains_data_modifying_cte_normalized (normalize sql) ≡ false)
        × (contains_select_side_effects (normalize sql) ≡ false))

-- `values`, `table` or `show`.
abbrev pub IsOther : Text → Type 0
IsOther sql =
    (keyword_is sql (codes "select") ≡ false)
    × ((keyword_is sql (codes "values") ≡ true)
        ⊎ ((keyword_is sql (codes "table") ≡ true) ⊎ (keyword_is sql (codes "show") ≡ true)))

-- A statement that only reads, by its first word, when it is not one of the commands tried first.
abbrev pub IsPlainRead : Text → Type 0
IsPlainRead sql =
    (keyword_is sql (codes "with") ≡ false)
    × (is_transaction_control sql ≡ false)
    × (is_session_mutation sql ≡ false)
    × (IsCopyOut sql ⊎ ((keyword_is sql (codes "copy") ≡ false) × (IsSelect sql ⊎ IsOther sql)))

-- The decisions, on any answers to the tests.
select_routes :
    (cte side : Bool)
    → (routes_to_replica (if cte || side then write else read_candidate) ≡ true)
      ↔ ((cte ≡ false) × (side ≡ false))
unfolding routes_to_replica
select_routes cte side = ground arith

copy_routes :
    (from to : Bool)
    → (routes_to_replica (if from then write else if to then read_candidate else write) ≡ true)
      ↔ ((from ≡ false) × (to ≡ true))
unfolding routes_to_replica
copy_routes from to = ground arith

other_routes :
    (values table show writes : Bool)
    → (routes_to_replica (
          if values || table
          then read_candidate
          else if show
          then read_candidate
          else if writes
          then write
          else unknown)
        ≡ true)
      ↔ ((values ≡ true) ⊎ ((table ≡ true) ⊎ (show ≡ true)))
unfolding routes_to_replica
other_routes values table show writes = ground arith

module _ (C S O : QueryClass) (c s o : Type 0) where
  pick_routes :
      (w t m copy select : Bool)
      → (routes_to_replica C ≡ true) ↔ c
      → (routes_to_replica S ≡ true) ↔ s
      → (routes_to_replica O ≡ true) ↔ o
      → (cte : Bool)
      → (routes_to_replica (
            if w
            then (if cte then write else unknown)
            else if t
            then transaction_control
            else if m
            then session_mutation
            else if copy
            then C
            else if select
            then S
            else O)
          ≡ true)
        ↔ ((w ≡ false)
            × (t ≡ false)
            × (m ≡ false)
            × (((copy ≡ true) × c)
                ⊎ ((copy ≡ false) × (((select ≡ true) × s) ⊎ ((select ≡ false) × o)))))
  unfolding routes_to_replica
  pick_routes true t m copy select hc hs ho cte = ground arith
  pick_routes false true m copy select hc hs ho cte = ground arith
  pick_routes false false true copy select hc hs ho cte = ground arith
  pick_routes false false false true select hc hs ho cte =
      (λ h. (refl, refl, refl, inl (refl, hc.0 h)), λ p. hc.1 (ground arith))
  pick_routes false false false false true hc hs ho cte = ground (arith, hs)
  pick_routes false false false false false hc hs ho cte = ground (arith, ho)

-- The statements without `explain` that go to a replica.
pub classify_unexplained_reads :
    (sql : Text) → (routes_to_replica (classify_unexplained sql) ≡ true) ↔ IsPlainRead sql
unfolding classify_unexplained classify_copy
classify_unexplained_reads sql =
    pick_routes _ _ _ _ _ _ (keyword_is sql (codes "with")) (is_transaction_control sql)
      (is_session_mutation sql) (keyword_is sql (codes "copy")) (keyword_is sql (codes "select"))
      (copy_routes (contains_words_ignore_ascii_case sql (codes "from" ∷ codes "stdin" ∷ []))
        (contains_words_ignore_ascii_case sql (codes "to" ∷ codes "stdout" ∷ [])))
      (select_routes (contains_data_modifying_cte_normalized (normalize sql))
        (contains_select_side_effects (normalize sql)))
      (other_routes (keyword_is sql (codes "values")) (keyword_is sql (codes "table"))
        (keyword_is sql (codes "show")) (is_write_statement sql))
      (contains_data_modifying_cte_normalized (normalize sql))
