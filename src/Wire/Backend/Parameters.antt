-- ===== src/Wire/Backend/Parameters.antt =====
-- ParameterStatus messages (crates/pg-kinetic-wire/src/backend.rs).
use pg_kinetic.Prelude.{
  ℕ, ◌+◌, ◌^◌, ◌<◌, ◌≡◌, ◌≢◌, ◌↔◌, refl, ap, sym, ◌∙◌, Bool-cases, inl, inr, some, List, [], ◌∷◌,
  ◌++◌, arith, ◌==◌, length, Bytes, All, length-append, ne→==,
}
use pg_kinetic.Wire.Buffer.{IsNulFree}
use pg_kinetic.Wire.Utf8.{from_utf8_of, from_utf8_inv}
use pg_kinetic.Wire.Protocol.{ok, BackendTag, backend_byte}
use pg_kinetic.Wire.Message.Cstr.{IsCstr}
use pg_kinetic.Wire.Backend.{
  BackendFrame, parse_backend_frame, encode_parameter_status, parse_parameter_status, split_nul,
  push_part, status_of_parts,
}
use pg_kinetic.Wire.Backend.Frames.{parse_backend_frame-message}

split_nul_text : (v : Bytes) → IsNulFree v → split_nul v ≡ v ∷ []
unfolding split_nul
split_nul_text [] h = refl
split_nul_text (b ∷ v) h = rw (ne→== b 0 h.0, split_nul_text v h.1)

split_nul-append : (v t : Bytes) → IsNulFree v → split_nul (v ++ 0 ∷ t) ≡ v ∷ split_nul t
unfolding split_nul
split_nul-append [] t h = refl
split_nul-append (b ∷ v) t h = rw (ne→== b 0 h.0, split_nul-append v t h.1)

-- The parts with NULs between them.
abbrev join_nul : List Bytes → Bytes
join_nul [] = []
join_nul (part ∷ []) = part
join_nul (part ∷ next ∷ parts) = part ++ 0 ∷ join_nul (next ∷ parts)

split_nul_ne : (p : Bytes) → split_nul p ≢ []
unfolding split_nul
split_nul_ne [] h = cc
split_nul_ne (b ∷ p) h = ground (arith, split_nul_ne p)

join-push :
    (b : ℕ) (parts : List Bytes) → parts ≢ [] → join_nul (push_part b parts) ≡ b ∷ join_nul parts
join-push b [] h = absurd (h refl)
join-push b (part ∷ []) h = refl
join-push b (part ∷ next ∷ parts) h = refl

join_nul-split_nul : (p : Bytes) → join_nul (split_nul p) ≡ p
unfolding split_nul
join_nul-split_nul [] = refl
join_nul-split_nul (b ∷ p) =
    ground (arith, join-push b (split_nul p) (split_nul_ne p), join_nul-split_nul p, split_nul_ne p)

push-NulFree :
    (b : ℕ) (parts : List Bytes) → b ≢ 0 → All IsNulFree parts → All IsNulFree (push_part b parts)
push-NulFree b [] h ps = ((h, tt), tt)
push-NulFree b (part ∷ parts) h ps = ((h, ps.0), ps.1)

split_nul-NulFree : (p : Bytes) → All IsNulFree (split_nul p)
unfolding split_nul
split_nul-NulFree [] = (tt, tt)
split_nul-NulFree (b ∷ p) = elim (Bool-cases (b == 0)) [
  | inl e ↦ rw e (tt, split_nul-NulFree p)
  | inr e ↦ rw e (push-NulFree b (split_nul p) (ground arith) (split_nul-NulFree p))
]

parts_inv :
    (parts : List Bytes) (name value : Bytes)
    → All IsNulFree parts
    → status_of_parts parts ≡ some (name, value)
    → (parts ≡ name ∷ value ∷ [] ∷ []) × IsCstr name × IsCstr value × (name ≢ [])
unfolding status_of_parts
parts_inv [] name value ps h = cc
parts_inv (_ ∷ []) name value ps h = cc
parts_inv (_ ∷ _ ∷ []) name value ps h = cc
parts_inv (n ∷ v ∷ t ∷ more) name value ps h =
    ground (arith, ps, from_utf8_inv n name, from_utf8_inv v value)

parts_of :
    (name value : Bytes)
    → IsCstr name
    → IsCstr value
    → name ≢ []
    → status_of_parts (name ∷ value ∷ split_nul []) ≡ some (name, value)
unfolding status_of_parts split_nul
parts_of [] value cn cv h = absurd (h refl)
parts_of (b ∷ name) value cn cv h = rw (from_utf8_of (b ∷ name) cn.1, from_utf8_of value cv.1)

-- A payload is understood exactly when it is a name that is not empty and a value, each a text
-- that ends with NUL.
pub parse_parameter_status_iff :
    (payload name value : Bytes)
    → (parse_parameter_status payload ≡ some (name, value))
      ↔ ((payload ≡ name ++ 0 ∷ (value ++ 0 ∷ [])) × IsCstr name × IsCstr value × (name ≢ []))
unfolding parse_parameter_status
parse_parameter_status_iff payload name value = (
  λ h.
      let parts = parts_inv (split_nul payload) name value (split_nul-NulFree payload) h in
      (sym (join_nul-split_nul payload) ∙ ap join_nul parts.0, parts.1, parts.2, parts.3),
  λ h.
      rw (h.0, split_nul-append name (value ++ 0 ∷ []) h.1.0, split_nul-append value [] h.2.0)
        (parts_of name value h.1 h.2 h.3),
)

-- A ParameterStatus that the proxy sends, of a name that is not empty and a value that together fit
-- a frame, is read back from the stream as the name and the value.
pub encode_parameter_status_read :
    (name value rest : Bytes)
    → IsCstr name
    → IsCstr value
    → name ≢ []
    → length name + length value + 6 < 2 ^ 31
    → (f : BackendFrame) × (parse_backend_frame (encode_parameter_status name value ++ rest)
        ≡ (ok (some f), rest))
      × (parse_parameter_status f.payload ≡ some (name, value))
unfolding encode_parameter_status
encode_parameter_status_read name value rest cn cv ne fits =
    let payload : Bytes = name ++ 0 ∷ (value ++ 0 ∷ []) in
    let size : length payload ≡ length name + length value + 2 =
      omega (arith, length-append name (0 ∷ (value ++ 0 ∷ [])), length-append value (0 ∷ [])) in
    (
      record { tag = backend_byte BackendTag.parameter_status; payload = payload },
      parse_backend_frame-message (backend_byte BackendTag.parameter_status) payload rest
          (omega arith),
      (parse_parameter_status_iff payload name value).1 (refl, cn, cv, ne),
    )
