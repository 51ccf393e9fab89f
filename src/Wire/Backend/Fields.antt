-- ===== src/Wire/Backend/Fields.antt =====
-- The fields of an ErrorResponse (`BackendFrame::sqlstate`, crates/pg-kinetic-wire/src/backend.rs).
use pg_kinetic.Prelude.{
  ℕ, zero, suc, ◌+◌, ◌-◌, ◌^◌, ◌≤◌, ◌<◌, ◌≡◌, refl, ap, sym, ◌∙◌, ◌≢◌, Option, none, some, List, [],
  ◌∷◌, ◌++◌, arith, ◌==◌, if◌then◌else◌, length, get_elem?, Bytes, length-append, take-append,
  append_assoc, append-nil, All, codes, true, ◌⊎◌, inl, inr, Bool-cases,
}
use pg_kinetic.Wire.Buffer.{position-append}
use pg_kinetic.Wire.Utf8.{is_utf8, from_utf8_of}
use pg_kinetic.Wire.Protocol.{ok, BackendTag, backend_byte}
use pg_kinetic.Wire.SqlState
use pg_kinetic.Wire.SqlState.{SqlState}
use pg_kinetic.Wire.Message.Cstr.{IsCstr, get_from_add}
use pg_kinetic.Wire.Backend.{
  BackendFrame, parse_backend_frame, build_error_response, sqlstate, sqlstate_loop, sqlstate_round,
  after_round, FieldStep, return, next, sqlstate_field_kind, severity_field_kind,
  message_field_kind,
}
use pg_kinetic.Wire.Backend.Frames.{parse_backend_frame-message}

-- A field: a kind other than NUL, and a text.
abbrev pub IsField : ℕ × Bytes → Type 0
IsField (kind, value) = (kind ≢ 0) × IsCstr value

-- Fields as the server sends them, and the closing NUL.
abbrev pub encode_fields : List (ℕ × Bytes) → Bytes
encode_fields [] = 0 ∷ []
encode_fields ((kind, value) ∷ fields) = kind ∷ value ++ 0 ∷ encode_fields fields

-- The state named by the first field of kind `C`.
abbrev pub code_of : List (ℕ × Bytes) → Option SqlState
code_of [] = none
code_of ((kind, value) ∷ fields) =
    if kind == sqlstate_field_kind then SqlState.parse value else code_of fields

get_elem?_add : (pre t : Bytes) (n : ℕ) → get_elem? (pre ++ t) (length pre + n) ≡ get_elem? t n
get_elem?_add [] t n = let e : 0 + n ≡ n = omega arith in rw e
get_elem?_add (x ∷ pre) t n =
    let e : suc (length pre) + n ≡ suc (length pre + n) = omega arith in
    rw e (get_elem?_add pre t n)

abbrev shift_round : ℕ → FieldStep → FieldStep
shift_round k (return found) = return found
shift_round k (next offset) = next (k + offset)

sqlstate_round_add :
    (pre t : Bytes) (n : ℕ)
    → sqlstate_round (pre ++ t) (length pre + n) ≡ shift_round (length pre) (sqlstate_round t n)
unfolding sqlstate_round
sqlstate_round_add pre t n =
    let e : length pre + n + 1 ≡ length pre + (n + 1) = omega arith in
    rw (get_elem?_add pre t n, e, get_from_add pre t (n + 1)) (ground arith)

after_shift :
    (k : ℕ) (f g : ℕ → Option (Option SqlState)) (r : FieldStep)
    → ((n : ℕ) → f (k + n) ≡ g n)
    → after_round f (shift_round k r) ≡ after_round g r
after_shift k f g (return found) h = refl
after_shift k f g (next n) h = h n

-- What stands before the offset is not read.
sqlstate_loop_add :
    (fuel : ℕ) (pre t : Bytes) (n : ℕ)
    → sqlstate_loop fuel (pre ++ t) (length pre + n) ≡ sqlstate_loop fuel t n
unfolding sqlstate_loop
sqlstate_loop_add zero pre t n = refl
sqlstate_loop_add (suc fuel) pre t n =
    rw (sqlstate_round_add pre t n)
      (after_shift (length pre) _ _ (sqlstate_round t n) (sqlstate_loop_add fuel pre t))

-- A round at a field returns its code, or goes on behind it.
sqlstate_round_field :
    (kind : ℕ) (value rest : Bytes)
    → IsField (kind, value)
    → sqlstate_round (kind ∷ value ++ 0 ∷ rest) 0 ≡ (
        if kind == sqlstate_field_kind
        then return (SqlState.parse value)
        else next (length (kind ∷ value ++ 0 ∷ [])))
unfolding sqlstate_round
sqlstate_round_field kind value rest h = ground (
  arith,
  h,
  position-append value rest h.1.0,
  take-append value (0 ∷ rest),
  from_utf8_of value h.1.1,
  length-append value (0 ∷ []),
)

sqlstate_loop_field :
    (fuel kind : ℕ) (value t : Bytes) (found : Option SqlState)
    → IsField (kind, value)
    → sqlstate_loop fuel t 0 ≡ some found
    → sqlstate_loop (suc fuel) (kind ∷ value ++ 0 ∷ t) 0
      ≡ some (if kind == sqlstate_field_kind then SqlState.parse value else found)
unfolding sqlstate_loop
sqlstate_loop_field fuel kind value t found h e =
    let pre : Bytes = kind ∷ value ++ 0 ∷ [] in
    let whole : kind ∷ value ++ 0 ∷ t ≡ pre ++ t =
      ap (◌∷◌ kind) (sym (append_assoc value (0 ∷ []) t)) in
    let at : length pre + 0 ≡ length pre = omega arith in
    let behind : sqlstate_loop fuel (kind ∷ value ++ 0 ∷ t) (length pre) ≡ some found =
      rw (whole, ← at) (sqlstate_loop_add fuel pre t 0 ∙ e) in
    rw (sqlstate_round_field kind value t h) (ground (arith, behind))

sqlstate_loop_fields :
    (fuel : ℕ) (fields : List (ℕ × Bytes)) (rest : Bytes)
    → All IsField fields
    → length fields < fuel
    → sqlstate_loop fuel (encode_fields fields ++ rest) 0 ≡ some (code_of fields)
unfolding sqlstate_loop sqlstate_round
sqlstate_loop_fields zero fields rest h fits = absurd (omega arith)
sqlstate_loop_fields (suc fuel) [] rest h fits = refl
sqlstate_loop_fields (suc fuel) ((kind, value) ∷ fields) rest h fits =
    ap (λ t. sqlstate_loop (suc fuel) (kind ∷ t) 0)
      (append_assoc value (0 ∷ encode_fields fields) rest)
    ∙ sqlstate_loop_field fuel kind value (encode_fields fields ++ rest) (code_of fields) h.0
        (sqlstate_loop_fields fuel fields rest h.1 (omega arith))

length-encode_fields : (fields : List (ℕ × Bytes)) → length fields < length (encode_fields fields)
length-encode_fields [] = omega arith
length-encode_fields ((kind, value) ∷ fields) =
    omega (arith, length-append value (0 ∷ encode_fields fields), length-encode_fields fields)

-- The state of an ErrorResponse of fields, each of a kind that is not NUL and a text, is the one
-- that its first field of kind `C` names.
pub sqlstate-encode_fields :
    (fields : List (ℕ × Bytes)) (rest : Bytes)
    → All IsField fields
    → sqlstate (record {
      tag = backend_byte BackendTag.error_response;
      payload = encode_fields fields ++ rest;
    })
      ≡ some (code_of fields)
unfolding sqlstate backend_byte
sqlstate-encode_fields fields rest h =
    sqlstate_loop_fields _ fields rest h
      (omega (arith, length-encode_fields fields, length-append (encode_fields fields) rest))

get_elem?_past : (xs : Bytes) (n : ℕ) → length xs ≤ n → get_elem? xs n ≡ none
get_elem?_past [] n h = refl
get_elem?_past (x ∷ xs) zero h = absurd (omega arith)
get_elem?_past (x ∷ xs) (suc n) h = get_elem?_past xs n (omega arith)

round_advances :
    (payload : Bytes) (offset n : ℕ)
    → sqlstate_round payload offset ≡ next n
    → (offset < n) × (offset < length payload)
unfolding sqlstate_round
round_advances payload offset n h = ground (arith, get_elem?_past payload offset)

round_cases :
    (r : FieldStep) → ((found : Option SqlState) × (r ≡ return found)) ⊎ ((n : ℕ) × (r ≡ next n))
round_cases (return found) = inl (found, refl)
round_cases (next n) = inr (n, refl)

sqlstate_loop_total :
    (fuel : ℕ) (payload : Bytes) (offset : ℕ)
    → length payload - offset < fuel
    → (found : Option SqlState) × (sqlstate_loop fuel payload offset ≡ some found)
unfolding sqlstate_loop
sqlstate_loop_total zero payload offset h = absurd (omega arith)
sqlstate_loop_total (suc fuel) payload offset h =
    elim (round_cases (sqlstate_round payload offset)) [
      | inl (found, e) ↦ (found, rw e)
      | inr (n, e) ↦
          let go = round_advances payload offset n e in
          rw e (sqlstate_loop_total fuel payload n (omega arith))
    ]

-- The search for a state ends on every frame.
pub sqlstate_total : (f : BackendFrame) → (found : Option SqlState) × (sqlstate f ≡ some found)
unfolding sqlstate
sqlstate_total f = elim (Bool-cases (f.tag == backend_byte BackendTag.error_response)) [
  | inl e ↦ rw e (sqlstate_loop_total (suc (length f.payload)) f.payload 0 (omega arith))
  | inr e ↦ (none, rw e)
]

abbrev pub error_fields : Bytes → Bytes → List (ℕ × Bytes)
error_fields code text =
    (severity_field_kind, codes "ERROR")
    ∷ (sqlstate_field_kind, code)
    ∷ (message_field_kind, text)
    ∷ []

as_str-IsCstr : (s : SqlState) → IsCstr (SqlState.as_str s) × (length (SqlState.as_str s) ≡ 5)
unfolding SqlState.as_str is_utf8
as_str-IsCstr SqlState.too_many_connections = ground arith
as_str-IsCstr _ = ground arith

error_text : is_utf8 (codes "ERROR") ≡ true
unfolding is_utf8
error_text = refl

-- An error that the proxy makes up reaches the reader of backend frames with the state that it was
-- made from, whatever its message, a text that leaves room for the length, says.
pub build_error_response_read :
    (s : SqlState) (text rest : Bytes)
    → IsCstr text
    → length text < 2 ^ 31 - 32
    → (f : BackendFrame) × (parse_backend_frame
          (build_error_response (SqlState.as_str s) text ++ rest)
        ≡ (ok (some f), rest))
      × (sqlstate f ≡ some (some s))
unfolding build_error_response
build_error_response_read s text rest c fits =
    let fields = error_fields (SqlState.as_str s) text in
    let payload : Bytes = encode_fields fields in
    let code = as_str-IsCstr s in
    let size : length payload ≡ length text + 17 = omega (
      arith,
      length-append (SqlState.as_str s) (0 ∷ encode_fields ((message_field_kind, text) ∷ [])),
      length-append text (0 ∷ 0 ∷ []),
      code,
    ) in
    (
      record { tag = backend_byte BackendTag.error_response; payload = payload },
      parse_backend_frame-message (backend_byte BackendTag.error_response) payload rest
          (omega arith),
      ap (λ p. sqlstate (record { tag = backend_byte BackendTag.error_response; payload = p }))
            (sym (append-nil payload))
          ∙ sqlstate-encode_fields fields [] (ground (arith, code, c, error_text))
          ∙ ap some (SqlState.parse-as_str s),
    )
