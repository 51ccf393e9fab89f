-- ===== src/Wire/Backend.antt =====
-- crates/pg-kinetic-wire/src/backend.rs: frames from the server, and those the proxy makes up.
pub mod Frames
pub mod Fields
pub mod Parameters
use pg_kinetic.Prelude.{
  ℕ, zero, suc, ◌+◌, ◌-◌, Bool, true, false, ◌&&◌, ◌||◌, not, Option, none, some, List, [], ◌∷◌,
  ◌++◌, ltb, ◌==◌, if◌then◌else◌, length, take, drop, get_elem?, Bytes, codes,
}
use pg_kinetic.Wire.Buffer.{put_i32, i32_of, i32_ltb, as_i32, get_from, position}
use pg_kinetic.Wire.Utf8.{from_utf8}
use pg_kinetic.Wire.Protocol.{
  Result, ok, err, invalid_backend_frame_length, BackendTag, backend_byte, ReadyStatusByte,
  ready_byte,
}
use pg_kinetic.Wire.SqlState
use pg_kinetic.Wire.SqlState.{SqlState}

abbrev pub sqlstate_field_kind : ℕ
sqlstate_field_kind = b'C'

abbrev pub severity_field_kind : ℕ
severity_field_kind = b'S'

abbrev pub message_field_kind : ℕ
message_field_kind = b'M'

pub data ReadyStatus : Type 0 where
  idle in_transaction failed_transaction : ReadyStatus

pub record BackendFrame : Type 0 where
  pub tag : ℕ
  pub payload : Bytes

-- A tag, the length of the rest as an i32, and the payload.
abbrev pub message : ℕ → Bytes → Bytes
message tag payload = tag ∷ put_i32 (as_i32 (length payload + 4)) ++ payload

unfoldable pub build_error_response : Bytes → Bytes → Bytes
build_error_response sqlstate text =
    let payload : Bytes =
      severity_field_kind ∷ codes "ERROR"
      ++ 0
        ∷ (sqlstate_field_kind ∷ (sqlstate ++ 0 ∷ (message_field_kind ∷ (text ++ 0 ∷ 0 ∷ [])))) in
    message (backend_byte BackendTag.error_response) payload

unfoldable pub encode_parameter_status : Bytes → Bytes → Bytes
encode_parameter_status name value =
    message (backend_byte BackendTag.parameter_status) (name ++ 0 ∷ (value ++ 0 ∷ []))

unfoldable pub encode_backend_key_data : ℕ → ℕ → Bytes
encode_backend_key_data process_id secret_key =
    backend_byte BackendTag.backend_key_data ∷ put_i32 12
    ++ (put_i32 process_id ++ put_i32 secret_key)

-- `payload.split(|byte| *byte == 0)`: one part more than there are NULs.
abbrev pub push_part : ℕ → List Bytes → List Bytes
push_part b [] = (b ∷ []) ∷ []
push_part b (part ∷ parts) = (b ∷ part) ∷ parts

unfoldable pub split_nul : Bytes → List Bytes
split_nul [] = [] ∷ []
split_nul (b ∷ bs) = let rest = split_nul bs in if b == 0 then [] ∷ rest else push_part b rest

abbrev pub is_empty {ℓ} : {A : Type ℓ} → List A → Bool
is_empty [] = true
is_empty (_ ∷ _) = false

-- `Some((name?, value?))`.
abbrev pub both {ℓ} : {A : Type ℓ} → Option A → Option A → Option (A × A)
both none v = none
both (some n) none = none
both (some n) (some v) = some (n, v)

unfoldable pub status_of_parts : List Bytes → Option (Bytes × Bytes)
status_of_parts (name ∷ value ∷ trailing ∷ more) =
    if is_empty name || (not (is_empty trailing) || not (is_empty more))
    then none
    else both (from_utf8 name) (from_utf8 value)
status_of_parts _ = none

unfoldable pub parse_parameter_status : Bytes → Option (Bytes × Bytes)
unfolding status_of_parts split_nul
parse_parameter_status payload = status_of_parts (split_nul payload)

unfoldable pub status_of_payload : Bytes → Option ReadyStatus
status_of_payload (byte ∷ []) =
    if byte == ready_byte ReadyStatusByte.idle
    then some idle
    else if byte == ready_byte ReadyStatusByte.in_transaction
    then some in_transaction
    else if byte == ready_byte ReadyStatusByte.failed_transaction
    then some failed_transaction
    else none
status_of_payload _ = none

unfoldable pub ready_status : BackendFrame → Option ReadyStatus
unfolding status_of_payload
ready_status frame =
    if frame.tag == backend_byte BackendTag.ready_for_query
    then status_of_payload frame.payload
    else none

-- One round of the loop of `BackendFrame::sqlstate`: it returns, or goes on at an offset.
pub data FieldStep : Type 0 where
  return : Option SqlState → FieldStep
  next : ℕ → FieldStep

abbrev or_return {ℓ} : {A : Type ℓ} → Option A → (A → FieldStep) → FieldStep
or_return none f = return none
or_return (some a) f = f a

unfoldable pub sqlstate_round : Bytes → ℕ → FieldStep
sqlstate_round payload offset = or_return (get_elem? payload offset) λ field_type.
    if field_type == 0
    then return none
    else or_return (get_from payload (offset + 1)) λ remaining.
      or_return (position remaining) λ terminator.
        or_return (from_utf8 (take terminator remaining)) λ value.
          if field_type == sqlstate_field_kind
          then return (SqlState.parse value)
          else next (offset + 1 + (terminator + 1))

abbrev pub after_round : (ℕ → Option (Option SqlState)) → FieldStep → Option (Option SqlState)
after_round resume (return found) = some found
after_round resume (next offset) = resume offset

-- The outer `none` means that the fuel ran out.
unfoldable pub sqlstate_loop : ℕ → Bytes → ℕ → Option (Option SqlState)
sqlstate_loop zero payload offset = none
sqlstate_loop (suc fuel) payload offset =
    after_round (sqlstate_loop fuel payload) (sqlstate_round payload offset)

-- Each round takes two bytes at least.
unfoldable pub sqlstate : BackendFrame → Option (Option SqlState)
sqlstate frame =
    if frame.tag == backend_byte BackendTag.error_response
    then sqlstate_loop (suc (length frame.payload)) frame.payload 0
    else some none

-- The first clause is a buffer of at least five bytes.
unfoldable pub parse_backend_frame : Bytes → Result (Option BackendFrame) × Bytes
parse_backend_frame (tag ∷ b1 ∷ b2 ∷ b3 ∷ b4 ∷ body) =
    let buffer = tag ∷ b1 ∷ b2 ∷ b3 ∷ b4 ∷ body in
    let len = i32_of b1 b2 b3 b4 in
    let total_len = 1 + len in
    if i32_ltb len 4
    then (err (invalid_backend_frame_length len), buffer)
    else if ltb (length buffer) total_len
    then (ok none, buffer)
    else (ok (some (record { tag = tag; payload = take (len - 4) body })), drop (len - 4) body)
parse_backend_frame buffer = (ok none, buffer)
