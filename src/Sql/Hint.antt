-- ===== src/Sql/Hint.antt =====
-- crates/pg-kinetic-core/src/protocol/sql_classify.rs: the routing hint in the comments before a
-- text, and the analysis of a text.
use pg_kinetic.Prelude.{
  ℕ, zero, suc, Bool, true, false, Option, none, some, [], ◌∷◌, length, codes, bytes_eq,
  if◌then◌else◌,
}
use pg_kinetic.Routing.{QueryClass}
use pg_kinetic.Sql.Chars.{Text, trim, trim_start, strip_prefix, split_once}
use pg_kinetic.Sql.Classify.{classify_sql}
use pg_kinetic.Sql.Separators.{line_mark, open_mark, close_mark}

-- `no_hint` is `RoutingHint::None`.
pub data RoutingHint : Type 0 where
  primary replica stale_ok strict_fresh no_hint : RoutingHint

abbrev pub is_no_hint : RoutingHint → Bool
is_no_hint no_hint = true
is_no_hint _ = false

-- The `match comment`.
unfoldable pub hint_of : Text → RoutingHint
hint_of comment =
    if bytes_eq comment (codes "pg-kinetic: primary")
    then primary
    else if bytes_eq comment (codes "pg-kinetic: replica")
    then replica
    else if bytes_eq comment (codes "pg-kinetic: stale-ok")
    then stale_ok
    else if bytes_eq comment (codes "pg-kinetic: strict-fresh")
    then strict_fresh
    else no_hint

-- One round of the loop: what is left to read, or the hint that is returned.
pub data HintRound : Type 0 where
  again : Text → HintRound
  done : RoutingHint → HintRound

abbrev line_round : Option (Text × Text) → HintRound
line_round none = done no_hint
line_round (some found) = again (trim_start found.1)

abbrev block_round : Option (Text × Text) → HintRound
block_round none = done no_hint
block_round (some found) =
    if is_no_hint (hint_of (trim found.0))
    then again (trim_start found.1)
    else done (hint_of (trim found.0))

unfoldable pub hint_round : Text → HintRound
hint_round rest = elim (strip_prefix open_mark rest) [
  | some after_comment ↦ block_round (split_once close_mark after_comment)
  | none ↦ elim (strip_prefix line_mark rest) [
    | some after_comment ↦ line_round (split_once (b'\n' ∷ []) after_comment)
    | none ↦ elim (bytes_eq (trim_start rest) rest) [
      | true ↦ done no_hint
      | false ↦ again (trim_start rest)
    ]
  ]
]

unfoldable pub hint_loop : ℕ → Text → RoutingHint
hint_loop zero rest = no_hint
hint_loop (suc f) rest = elim (hint_round rest) [ again next ↦ hint_loop f next | done h ↦ h ]

-- Every round but the last shortens the text, so its length is enough fuel.
unfoldable pub extract_routing_hint : Text → RoutingHint
extract_routing_hint sql = hint_loop (suc (length (trim_start sql))) (trim_start sql)

pub record SqlAnalysis : Type 0 where
  pub query_class : QueryClass
  pub routing_hint : RoutingHint

unfoldable pub analyze_sql : Text → SqlAnalysis
analyze_sql sql = record { query_class = classify_sql sql; routing_hint = extract_routing_hint sql }
