-- ===== src/Sql/Fingerprint.antt =====
-- crates/pg-kinetic-core/src/fingerprint.rs: the shape of a statement, without its literals.
pub mod Shape
use pg_kinetic.Prelude.{
  ℕ, zero, suc, ◌+◌, ◌-◌, Bool, true, false, not, ◌&&◌, ◌||◌, Option, none, some, List, [], ◌∷◌,
  ◌++◌, ◌==◌, ltb, leb, if◌then◌else◌, codes, bytes_eq,
}
use pg_kinetic.Sql.Chars.{Text, is_empty, to_ascii_lowercase, starts_with}
use pg_kinetic.Sql.Tokens.{SqlToken, comment, literal, word, symbol, tokenize_sql}

abbrev pub max_fingerprint_bytes : ℕ
max_fingerprint_bytes = 256

-- `char::len_utf8`, and `str::len`, which counts bytes.
unfoldable pub len_utf8 : ℕ → ℕ
len_utf8 c = if ltb c 128 then 1 else if ltb c 2048 then 2 else if ltb c 65536 then 3 else 4

unfoldable pub len : Text → ℕ
unfolding len_utf8
len [] = 0
len (c ∷ cs) = len_utf8 c + len cs

unfoldable pub ends_with : Text → Text → Bool
ends_with p [] = bytes_eq p []
ends_with p (c ∷ cs) = bytes_eq p (c ∷ cs) || ends_with p cs

-- `String::truncate`; none where the new length is inside a character, which panics.
unfoldable pub truncate : ℕ → Text → Option Text
unfolding len_utf8
truncate n [] = some []
truncate n (c ∷ cs) = elim (leb (len_utf8 c) n) [
  | false ↦ elim (n == 0) [ true ↦ some [] | false ↦ none ]
  | true ↦ elim (truncate (n - len_utf8 c) cs) [ none ↦ none | some kept ↦ some (c ∷ kept) ]
]

unfoldable pub append_token : Text → Text → Text
unfolding ends_with starts_with
append_token output token =
    let needs_space =
      not (is_empty output)
      && not (ends_with (codes "(") output)
      && not (
          starts_with (codes ")") token
          || starts_with (codes ",") token
          || starts_with (codes ";") token) in
    if needs_space then output ++ b' ' ∷ token else output ++ token

pub record Fingerprint : Type 0 where
  pub output : Text
  pub in_list : Bool
  pub list_values : ℕ

unfoldable pub literal_step : Fingerprint → Fingerprint
unfolding append_token
literal_step f =
    let output =
      if not f.in_list
      then append_token f.output (codes "?")
      else if f.list_values == 0
      then append_token f.output (codes "?")
      else f.output in
    record f { output = output; list_values = f.list_values + 1 }

unfoldable pub symbol_step : Fingerprint → Text → Fingerprint
unfolding append_token
symbol_step f s =
    if bytes_eq s (codes "(") && ends_with (codes " in") f.output
    then record f { output = append_token f.output (codes "("); in_list = true; list_values = 0 }
    else if f.in_list && bytes_eq s (codes ")")
    then record f { output = append_token f.output (codes ")"); in_list = false }
    else if f.in_list && bytes_eq s (codes ",")
    then record f { list_values = f.list_values + 1 }
    else record f { output = append_token f.output s }

unfoldable pub fingerprint_step : Fingerprint → SqlToken → Fingerprint
unfolding literal_step symbol_step append_token to_ascii_lowercase
fingerprint_step f comment = f
fingerprint_step f literal = literal_step f
fingerprint_step f (word w) = record f { output = append_token f.output (to_ascii_lowercase w) }
fingerprint_step f (symbol s) = symbol_step f s

-- The loop; none where it panics.
unfoldable pub fingerprint_tokens : Fingerprint → List SqlToken → Option Text
unfolding fingerprint_step len truncate
fingerprint_tokens f [] = some f.output
fingerprint_tokens f (t ∷ ts) =
    let next = fingerprint_step f t in
    elim (leb max_fingerprint_bytes (len next.output)) [
      | true ↦ truncate max_fingerprint_bytes next.output
      | false ↦ fingerprint_tokens next ts
    ]

abbrev pub initial : Fingerprint
initial = record { output = []; in_list = false; list_values = 0 }

unfoldable pub fingerprint_sql : Text → Option Text
unfolding fingerprint_tokens
fingerprint_sql sql = fingerprint_tokens initial (tokenize_sql sql)
