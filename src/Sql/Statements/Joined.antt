-- ===== src/Sql/Statements/Joined.antt =====
-- Splitting a text undoes putting statements together:
-- crates/pg-kinetic-core/src/protocol/sql_classify.rs.
use pg_kinetic.Prelude.{◌≡◌, refl, sym, ap, ◌∙◌, false, List, [], ◌∷◌, ◌++◌, All, append-nil}
use pg_kinetic.Sql.Chars.{Text, is_empty, trim}
use pg_kinetic.Sql.Statements.Split.{Whole, at-Whole}
use pg_kinetic.Sql.Statements.{normal, visit, statements_from, split_top_level_statements}

-- The statements, a `;` between any two.
abbrev pub join_statements : List Text → Text
join_statements [] = []
join_statements (s ∷ []) = s
join_statements (s ∷ t ∷ rest) = s ++ b';' ∷ join_statements (t ∷ rest)

-- A statement as it is visited: whole, with no white space around it, and not empty.
abbrev pub IsStatement : Text → Type 0
IsStatement s = Whole s × (trim s ≡ s) × (is_empty s ≡ false)

visit_statement :
    (s : Text) (later : List Text) → trim s ≡ s → is_empty s ≡ false → visit s later ≡ s ∷ later
unfolding visit
visit_statement s later t e = rw (visit, t, e) refl

statements_from-join :
    (ss : List Text)
    → All IsStatement ss
    → statements_from false normal [] (join_statements ss) ≡ ss
unfolding statements_from
statements_from-join [] h = refl
statements_from-join (s ∷ []) ((w, t, e), _) =
    ap (statements_from false normal []) (sym (append-nil s))
    ∙ at-Whole [] [] w (refl, refl, refl, refl)
    ∙ visit_statement s [] t e
statements_from-join (s ∷ r ∷ rest) ((w, t, e), h) =
    at-Whole [] (b';' ∷ join_statements (r ∷ rest)) w (refl, refl, refl, refl)
    ∙ visit_statement s _ t e
    ∙ ap (◌∷◌ s) (statements_from-join (r ∷ rest) h)

-- Statements with a `;` between any two are found again, one by one, when each closes the single
-- quotes, double quotes and comments that it opens and has a `;` in these only. Dollar quotes are no
-- quotes to the splitter, and a `;` in one is none of these.
pub split_top_level_statements-join_statements :
    (ss : List Text) → All IsStatement ss → split_top_level_statements (join_statements ss) ≡ ss
unfolding split_top_level_statements
split_top_level_statements-join_statements = statements_from-join
