-- ===== src/Guardrails.antt =====
-- crates/pg-kinetic-proxy/src/guardrails.rs: the rules that may deny a statement, and the list of
-- allowed fingerprints. The file of the list is read outside the model: its size and its text are
-- arguments, and an evaluation starts behind `refresh_allowlist_if_changed`.
pub mod Decisions
pub mod Allowlist
mod Tests
use pg_kinetic.Prelude.Tables.{get, put, erase}
use pg_kinetic.Prelude.{
  ℕ, zero, suc, ◌+◌, Bool, true, false, not, ◌&&◌, ◌||◌, Option, none, some, List, [], ◌∷◌, ◌++◌,
  ltb, leb, ◌==◌, length, if◌then◌else◌, is_some, bytes_eq, codes,
}
use pg_kinetic.Routing.{QueryClass, write}
use pg_kinetic.Sql.Chars.{Text, is_empty, trim, starts_with}
use pg_kinetic.Sql.Fingerprint.{max_fingerprint_bytes, len, fingerprint_sql}
use pg_kinetic.Sql.Tokens.{is_ddl, is_unqualified_dml}

abbrev pub max_allowlist_entries : ℕ
max_allowlist_entries = 256

abbrev pub max_observations : ℕ
max_observations = 256

abbrev pub max_allowlist_bytes : ℕ
max_allowlist_bytes = 131072

pub data GuardrailMode : Type 0 where
  off observe enforce : GuardrailMode

pub data GuardrailRule : Type 0 where
  unqualified_dml ddl unknown_fingerprint : GuardrailRule

pub data GuardrailDecision : Type 0 where
  allow : GuardrailDecision
  deny : GuardrailRule → GuardrailDecision

pub record GuardrailsConfig : Type 0 where
  pub mode : GuardrailMode
  pub block_unqualified_dml : Bool
  pub block_ddl : Bool

pub record GuardrailRegistry : Type 0 where
  pub config : GuardrailsConfig
  pub allowlist : List Text
  pub observations : List (Text × ℕ)

abbrev pub is_off : GuardrailMode → Bool
is_off off = true
is_off _ = false

abbrev pub is_enforce : GuardrailMode → Bool
is_enforce enforce = true
is_enforce _ = false

abbrev is_write : QueryClass → Bool
is_write write = true
is_write _ = false

abbrev pub contains_key : Text → List Text → Bool
contains_key k [] = false
contains_key k (j ∷ js) = bytes_eq j k || contains_key k js

abbrev counted : Option ℕ → ℕ
counted none = 1
counted (some n) = n + 1

-- The first key that the iterator of the map gives, of which nothing else is known.
module _ (first_key : List (Text × ℕ) → Option Text) where
  abbrev pub evicted : List (Text × ℕ) → Option Text → List (Text × ℕ)
  evicted o none = o
  evicted o (some oldest) = erase bytes_eq oldest o

  -- The map with one key less, when it is full and has not this one.
  unfoldable pub make_room : Text → List (Text × ℕ) → List (Text × ℕ)
  make_room fingerprint o =
      if leb max_observations (length o) && not (is_some (get bytes_eq fingerprint o))
      then evicted o (first_key o)
      else o

  unfoldable pub observe_fingerprint : Text → List (Text × ℕ) → List (Text × ℕ)
  unfolding make_room
  observe_fingerprint fingerprint o =
      let room = make_room fingerprint o in
      put bytes_eq fingerprint (counted (get bytes_eq fingerprint room)) room

  -- The rules in their order, on the fingerprint.
  unfoldable pub decide : GuardrailRegistry → QueryClass → Text → Text → GuardrailDecision
  decide r class sql fingerprint =
      if r.config.block_unqualified_dml
        && is_write class
        && is_unqualified_dml sql
        && is_enforce r.config.mode
      then deny unqualified_dml
      else if r.config.block_ddl && is_ddl sql && is_enforce r.config.mode
      then deny ddl
      else if is_enforce r.config.mode
          && (is_empty fingerprint || not (contains_key fingerprint r.allowlist))
      then deny unknown_fingerprint
      else allow

  -- `evaluate`, with the class of the analysis; none where the fingerprint panics.
  unfoldable pub evaluate :
      GuardrailRegistry → QueryClass → Text → Option (GuardrailDecision × GuardrailRegistry)
  unfolding observe_fingerprint decide
  evaluate r class sql = elim (is_off r.config.mode) [
    | true ↦ some (allow, r)
    | false ↦ elim (fingerprint_sql sql) [
      | none ↦ none
      | some fingerprint ↦
          let observations =
            if is_empty fingerprint
            then r.observations
            else observe_fingerprint fingerprint r.observations in
          some (decide r class sql fingerprint, record r { observations = observations })
    ]
  ]

-- `char::is_control`.
abbrev is_control : ℕ → Bool
is_control c = ltb c 32 || leb 127 c && ltb c 160

abbrev pub any_control : Text → Bool
any_control [] = false
any_control (c ∷ cs) = is_control c || any_control cs

-- `str::lines` on a text, behind the part of a line that has been read; the `\r` that it takes off
-- is white space, which is trimmed.
unfoldable pub lines_from : Text → Text → List Text
lines_from line [] = line ∷ []
lines_from line (c ∷ cs) =
    if c == b'\n' then line ∷ lines_from [] cs else lines_from (line ++ c ∷ []) cs

abbrev pub is_entry : Text → Bool
is_entry line = not (is_empty line) && not (starts_with (codes "#") line)

abbrev pub add_entry : Text → List Text → List Text
add_entry line entries = if contains_key line entries then entries else line ∷ entries

-- The two tests that bail out.
abbrev pub refuses : Text → List Text → Bool
refuses line entries =
    leb max_allowlist_entries (length entries)
    || (ltb max_fingerprint_bytes (len line) || any_control line)

-- The loop over the lines; none where it bails out.
unfoldable pub load_lines : List Text → List Text → Option (List Text)
load_lines entries [] = some entries
load_lines entries (l ∷ ls) =
    let line = trim l in
    elim (is_entry line) [
      | false ↦ load_lines entries ls
      | true ↦ elim (refuses line entries) [
        | true ↦ none
        | false ↦ load_lines (add_entry line entries) ls
      ]
    ]

unfoldable pub load_allowlist : ℕ → Text → Option (List Text)
unfolding load_lines lines_from
load_allowlist size content =
    if ltb max_allowlist_bytes size then none else load_lines [] (lines_from [] content)
