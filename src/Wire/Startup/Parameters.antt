-- ===== src/Wire/Startup/Parameters.antt =====
-- The parameter list of a startup packet (crates/pg-kinetic-wire/src/startup.rs).
use pg_kinetic.Prelude.{
  ℕ, zero, suc, ◌+◌, ◌-◌, ◌≤◌, ◌<◌, ◌≡◌, ◌≢◌, inl, inr, refl, ap, sym, ◌∙◌, Bool-cases,
  Option-cases, some, [], ◌∷◌, ◌++◌, arith, ◌==◌, leb, length, get_elem?, Bytes, All, length-append,
  append_assoc, append-nil, drop-append, take-append, true, false,
}
use pg_kinetic.Wire.Buffer.{IsNulFree, position-append}
use pg_kinetic.Wire.Utf8.{from_utf8_of, IsUtf8}
use pg_kinetic.Wire.Protocol.{Result, Result-cases, ok, err, unterminated_startup_parameters}
use pg_kinetic.Wire.Message.Cstr.{IsCstr}
use pg_kinetic.Wire.Startup.{
  Parameters, find_null, text_of, read_parameter, parameters_loop, parse_parameters, ends_with_nul,
}

-- A parameter that a packet can carry.
abbrev pub IsParameter : Bytes × Bytes → Type 0
IsParameter (key, value) = (key ≢ []) × IsCstr key × IsCstr value

-- Keys and values, each closed by NUL, and one more NUL.
abbrev pub encode_parameters : Parameters → Bytes
encode_parameters [] = 0 ∷ []
encode_parameters ((key, value) ∷ ps) = key ++ 0 ∷ (value ++ 0 ∷ encode_parameters ps)

find_null_at :
    (pre v rest : Bytes)
    → IsNulFree v
    → find_null (pre ++ (v ++ 0 ∷ rest)) (length pre) ≡ some (length pre + length v)
unfolding find_null
find_null_at pre v rest h = rw (drop-append pre (v ++ 0 ∷ rest), position-append v rest h)

text_of_at :
    (pre v rest : Bytes)
    → IsUtf8 v
    → text_of (pre ++ (v ++ 0 ∷ rest)) (length pre) (length pre + length v) ≡ ok v
unfolding text_of
text_of_at pre v rest h =
    let e : length pre + length v - length pre ≡ length v = omega arith in
    rw (e, drop-append pre (v ++ 0 ∷ rest), take-append v (0 ∷ rest), from_utf8_of v h)

length-closed : (pre v : Bytes) → length (pre ++ (v ++ 0 ∷ [])) ≡ length pre + length v + 1
length-closed pre v = omega (arith, length-append pre (v ++ 0 ∷ []), length-append v (0 ∷ []))

closed-append : (pre v t : Bytes) → (pre ++ (v ++ 0 ∷ [])) ++ t ≡ pre ++ (v ++ 0 ∷ t)
closed-append pre v t =
    append_assoc pre (v ++ 0 ∷ []) t ∙ ap (λ u. pre ++ u) (append_assoc v (0 ∷ []) t)

read_parameter_at :
    (pre key value rest : Bytes)
    → IsCstr key
    → IsCstr value
    → read_parameter (pre ++ (key ++ 0 ∷ (value ++ 0 ∷ rest))) (length pre)
      ≡ ok ((key, value), length pre + length key + 1 + length value + 1)
unfolding read_parameter
read_parameter_at pre key value rest ck cv =
    let bytes : Bytes = pre ++ (key ++ 0 ∷ (value ++ 0 ∷ rest)) in
    let start' : ℕ = length pre + length key + 1 in
    let pre' : Bytes = pre ++ (key ++ 0 ∷ []) in
    let whole : pre' ++ (value ++ 0 ∷ rest) ≡ bytes = closed-append pre key (value ++ 0 ∷ rest) in
    let at : length pre' ≡ start' = length-closed pre key in
    let value_end : find_null bytes start' ≡ some (start' + length value) =
      rw (← whole, ← at) (find_null_at pre' value rest cv.0) in
    let value_text : text_of bytes start' (start' + length value) ≡ ok value =
      rw (← whole, ← at) (text_of_at pre' value rest cv.1) in
    let inside : leb (length bytes) start' ≡ false = ground (
      arith,
      length-append pre (key ++ 0 ∷ (value ++ 0 ∷ rest)),
      length-append key (0 ∷ (value ++ 0 ∷ rest)),
      length-append value (0 ∷ rest),
    ) in
    ground (
      arith,
      find_null_at pre key (value ++ 0 ∷ rest) ck.0,
      text_of_at pre key (value ++ 0 ∷ rest) ck.1,
      value_end,
      value_text,
      inside,
    )

get_elem?_at : (pre t : Bytes) (b : ℕ) → get_elem? (pre ++ b ∷ t) (length pre) ≡ some b
get_elem?_at [] t b = refl
get_elem?_at (x ∷ pre) t b = get_elem?_at pre t b

parameters_loop_round :
    (fuel : ℕ) (pre key value rest : Bytes) (done : Parameters)
    → IsParameter (key, value)
    → parameters_loop (suc fuel) (pre ++ (key ++ 0 ∷ (value ++ 0 ∷ rest))) done (length pre)
      ≡ parameters_loop fuel
          (pre ++ (key ++ 0 ∷ (value ++ 0 ∷ rest)))
          (done ++ (key, value) ∷ [])
          (length pre + length key + 1 + length value + 1)
unfolding parameters_loop
parameters_loop_round fuel pre [] value rest done h = absurd (h.0 refl)
parameters_loop_round fuel pre (b ∷ key) value rest done h = ground (
  arith,
  get_elem?_at pre (key ++ 0 ∷ (value ++ 0 ∷ rest)) b,
  read_parameter_at pre (b ∷ key) value rest h.1 h.2,
  h.1.0.0,
)

parameters_loop-encode :
    (fuel : ℕ) (pre : Bytes) (done ps : Parameters)
    → All IsParameter ps
    → length ps < fuel
    → parameters_loop fuel (pre ++ encode_parameters ps) done (length pre) ≡ some (ok (done ++ ps))
unfolding parameters_loop
parameters_loop-encode zero pre done ps h fits = absurd (omega arith)
parameters_loop-encode (suc fuel) pre done [] h fits =
    rw (get_elem?_at pre [] 0, parameters_loop) (ap (λ ps. some (ok ps)) (sym (append-nil done)))
parameters_loop-encode (suc fuel) pre done ((key, value) ∷ ps) h fits =
    let rest : Bytes = encode_parameters ps in
    let pre' : Bytes = pre ++ (key ++ 0 ∷ []) in
    let pre'' : Bytes = pre' ++ (value ++ 0 ∷ []) in
    let whole : pre'' ++ rest ≡ pre ++ (key ++ 0 ∷ (value ++ 0 ∷ rest)) =
      closed-append pre' value rest ∙ closed-append pre key (value ++ 0 ∷ rest) in
    let at : length pre'' ≡ length pre + length key + 1 + length value + 1 =
      omega (arith, length-closed pre' value, length-closed pre key) in
    parameters_loop_round fuel pre key value rest done h.0
    ∙ rw (← whole, ← at)
        (parameters_loop-encode fuel pre'' (done ++ (key, value) ∷ []) ps h.1 (omega arith)
          ∙ ap (λ ps. some (ok ps)) (append_assoc done ((key, value) ∷ []) ps))

ends_with_nul-append : (xs ys : Bytes) → ends_with_nul ys ≡ true → ends_with_nul (xs ++ ys) ≡ true
unfolding ends_with_nul
ends_with_nul-append [] ys h = h
ends_with_nul-append (x ∷ []) [] h = cc
ends_with_nul-append (x ∷ []) (y ∷ ys) h = h
ends_with_nul-append (x ∷ x' ∷ xs) ys h = ends_with_nul-append (x' ∷ xs) ys h

ends_with_nul-encode : (ps : Parameters) → ends_with_nul (encode_parameters ps) ≡ true
unfolding ends_with_nul
ends_with_nul-encode [] = refl
ends_with_nul-encode ((key, value) ∷ ps) =
    let e = ends_with_nul-encode ps in
    ends_with_nul-append key _
      (ends_with_nul-append (0 ∷ value) _ (ends_with_nul-append (0 ∷ []) (encode_parameters ps) e))

length-encode_parameters : (ps : Parameters) → length ps < length (encode_parameters ps)
length-encode_parameters [] = omega arith
length-encode_parameters ((key, value) ∷ ps) = omega (
  arith,
  length-append key (0 ∷ (value ++ 0 ∷ encode_parameters ps)),
  length-append value (0 ∷ encode_parameters ps),
  length-encode_parameters ps,
)

-- An encoded list of parameters, each of a key that is not empty and a value, both texts, is read
-- back as it was, in order.
pub parse_parameters-encode :
    (ps : Parameters) → All IsParameter ps → parse_parameters (encode_parameters ps) ≡ some (ok ps)
unfolding parse_parameters
parse_parameters-encode ps h = rw (ends_with_nul-encode ps) (
    parameters_loop-encode (suc (length (encode_parameters ps))) [] [] ps h
      (omega (arith, length-encode_parameters ps)))

get_elem?_inside : (xs : Bytes) (n : ℕ) {b : ℕ} → get_elem? xs n ≡ some b → n < length xs
get_elem?_inside [] n h = cc
get_elem?_inside (x ∷ xs) zero h = omega arith
get_elem?_inside (x ∷ xs) (suc n) h = omega (arith, get_elem?_inside xs n h)

find_null_after : (bytes : Bytes) (start n : ℕ) → find_null bytes start ≡ some n → start ≤ n
unfolding find_null
find_null_after bytes start n h = ground arith

read_parameter_advances :
    (bytes : Bytes) (start next : ℕ) (pair : Bytes × Bytes)
    → read_parameter bytes start ≡ ok (pair, next)
    → start < next
unfolding read_parameter
read_parameter_advances bytes start next pair h = grind (arith, find_null_after)

parameters_loop_total :
    (fuel : ℕ) (bytes : Bytes) (done : Parameters) (start : ℕ)
    → length bytes - start < fuel
    → (r : Result Parameters) × (parameters_loop fuel bytes done start ≡ some r)
unfolding parameters_loop
parameters_loop_total zero bytes done start h = absurd (omega arith)
parameters_loop_total (suc fuel) bytes done start h = elim (Option-cases (get_elem? bytes start)) [
  | inl e ↦ (ok done, rw (e, parameters_loop))
  | inr (b, e) ↦ elim (Bool-cases (b == 0)) [
    | inl stop ↦ (ok done, rw (e, parameters_loop) (rw stop))
    | inr more ↦ elim (Result-cases (read_parameter bytes start)) [
      | inr (x, e') ↦ (err x, rw (e, parameters_loop) (rw (more, e')))
      | inl ((pair, next), e') ↦
          let inside = get_elem?_inside bytes start e in
          let on = read_parameter_advances bytes start next pair e' in
          let rest = parameters_loop_total fuel bytes (done ++ pair ∷ []) next (omega arith) in
          (rest.0, rw (e, parameters_loop) (rw (more, e') rest.1))
    ]
  ]
]

-- The loop over the parameters ends on every input.
pub parse_parameters_total :
    (bytes : Bytes) → (r : Result Parameters) × (parse_parameters bytes ≡ some r)
unfolding parse_parameters
parse_parameters_total bytes = elim (Bool-cases (ends_with_nul bytes)) [
  | inl e ↦ rw e (parameters_loop_total (suc (length bytes)) bytes [] 0 (omega arith))
  | inr e ↦ (err unterminated_startup_parameters, rw e)
]
