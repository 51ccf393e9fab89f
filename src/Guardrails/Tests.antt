-- ===== src/Guardrails/Tests.antt =====
-- The rules of crates/pg-kinetic-proxy/src/guardrails.rs on statements, with a list of one.
use pg_kinetic.Guardrails.Decisions.{IsAllowed, HasFirstKey, evaluate_iff, evaluate_bounded}
use pg_kinetic.Guardrails.Allowlist.{IsAllowlist, load_allowlist-IsAllowlist}
use pg_kinetic.Guardrails.{
  max_observations, enforce, allow, GuardrailRegistry, evaluate, load_allowlist,
}
use pg_kinetic.Prelude.Tables.{get, erase}
use pg_kinetic.Prelude.{
  ℕ, ◌≤◌, ◌≡◌, ◌≢◌, ◌↔◌, ◌⊎◌, refl, true, false, Option, none, some, List, [], ◌∷◌, arith, length,
  codes, bytes_eq_refl,
}
use pg_kinetic.Routing.{QueryClass}
use pg_kinetic.Sql.Chars.{
  Text, is_whitespace, is_ascii_digit, is_ascii_alphanumeric, trim, starts_with, to_ascii_lowercase,
}
use pg_kinetic.Sql.Fingerprint.{len, fingerprint_sql}
use pg_kinetic.Sql.Tokens.{span, lex_word, lex, tokens_loop, tokenize_sql, command, is_ddl}

abbrev registry : GuardrailRegistry
registry = record {
  config = record { mode = enforce; block_unqualified_dml = true; block_ddl = true };
  allowlist = codes "select ?" ∷ [];
  observations = [];
}

abbrev head_key : List (Text × ℕ) → Option Text
head_key [] = none
head_key ((k, n) ∷ o) = some k

head_key-HasFirstKey : HasFirstKey head_key
unfolding get
head_key-HasFirstKey [] h = absurd (omega arith)
head_key-HasFirstKey ((k, n) ∷ o) h = (k, (refl, rw (bytes_eq_refl k) refl))

select_fingerprint : fingerprint_sql (codes "select 1") ≡ some (codes "select ?")
unfolding fingerprint_sql tokenize_sql tokens_loop lex lex_word span is_whitespace is_ascii_digit
    is_ascii_alphanumeric
select_fingerprint = refl

evaluate_iff_example :
    ((later : GuardrailRegistry) × (evaluate head_key registry QueryClass.read_candidate
          (codes "select 1")
        ≡ some (allow, later)))
    ↔ ((registry.config.mode ≢ enforce)
        ⊎ IsAllowed registry QueryClass.read_candidate (codes "select 1") (codes "select ?"))
evaluate_iff_example =
    evaluate_iff head_key registry QueryClass.read_candidate (codes "select 1") (codes "select ?")
      select_fingerprint

abbrev observed : GuardrailRegistry
observed = record registry { observations = (codes "select ?", 1) ∷ [] }

select_allowed :
    evaluate head_key registry QueryClass.read_candidate (codes "select 1") ≡ some (allow, observed)
unfolding evaluate get erase is_ddl command to_ascii_lowercase fingerprint_sql tokenize_sql
    tokens_loop lex lex_word span is_whitespace is_ascii_digit is_ascii_alphanumeric
select_allowed = refl

evaluate_bounded_example : length observed.observations ≤ max_observations
evaluate_bounded_example =
    evaluate_bounded head_key registry observed QueryClass.read_candidate (codes "select 1") allow
      head_key-HasFirstKey (omega arith) select_allowed

loaded : load_allowlist 20 (codes "# reads\nselect ?\n") ≡ some (codes "select ?" ∷ [])
unfolding load_allowlist trim starts_with len
loaded = refl

load_allowlist-IsAllowlist_example : IsAllowlist (codes "select ?" ∷ [])
load_allowlist-IsAllowlist_example =
    load_allowlist-IsAllowlist 20 (codes "# reads\nselect ?\n") (codes "select ?" ∷ []) loaded

hidden_drop : is_ddl (codes "select 1; drop table t") ≡ false
unfolding is_ddl command to_ascii_lowercase tokenize_sql tokens_loop lex lex_word span is_whitespace
    is_ascii_digit is_ascii_alphanumeric
hidden_drop = refl
