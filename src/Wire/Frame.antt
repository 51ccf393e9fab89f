-- ===== src/Wire/Frame.antt =====
-- crates/pg-kinetic-wire/src/frame.rs, `encode_frontend_frame` of rewrite.rs, and the loop
-- `parse_frontend_cycle_frames` of crates/pg-kinetic-proxy/src/engine/io_runtime.rs.
-- A parser takes the buffer and returns its result and what stays in the buffer.
pub mod RoundTrip
pub mod Cycle
use pg_kinetic.Prelude.{
  ℕ, zero, suc, ◌+◌, ◌-◌, Option, none, some, List, [], ◌∷◌, ◌++◌, ltb, if◌then◌else◌, length, take,
  drop, Bytes,
}
use pg_kinetic.Wire.Buffer.{put_i32, i32_of, i32_ltb, as_i32}
use pg_kinetic.Wire.Protocol.{Result, ok, err, invalid_frame_length}

pub record FrontendFrame : Type 0 where
  pub tag : ℕ
  pub payload : Bytes

abbrev pub frame_header_len : ℕ
frame_header_len = 5

abbrev pub frame_length_prefix_len : ℕ
frame_length_prefix_len = 4

-- The first clause is a buffer of at least `frame_header_len` bytes.
unfoldable pub parse_frontend_frame : Bytes → Result (Option FrontendFrame) × Bytes
parse_frontend_frame (tag ∷ b1 ∷ b2 ∷ b3 ∷ b4 ∷ body) =
    let buffer = tag ∷ b1 ∷ b2 ∷ b3 ∷ b4 ∷ body in
    let len = i32_of b1 b2 b3 b4 in
    let payload_len = len - frame_length_prefix_len in
    let total_len = frame_header_len + payload_len in
    if i32_ltb len frame_length_prefix_len
    then (err (invalid_frame_length len), buffer)
    else if ltb (length buffer) total_len
    then (ok none, buffer)
    else (
      ok (some (record { tag = tag; payload = drop frame_header_len (take total_len buffer) })),
      drop total_len buffer,
    )
parse_frontend_frame buffer = (ok none, buffer)

unfoldable pub encode_frontend_frame : FrontendFrame → Bytes
encode_frontend_frame frame =
    frame.tag ∷ put_i32 (as_i32 (length frame.payload + 4)) ++ frame.payload

-- The loop over the frames of a buffer; `none` means that the fuel ran out.
unfoldable pub frames_loop : ℕ → Bytes → List FrontendFrame → Option (Result (List FrontendFrame))
frames_loop zero buffer frames = none
frames_loop (suc fuel) buffer frames =
    let (result, rest) = parse_frontend_frame buffer in
    elim result [
      | err e ↦ some (err e)
      | ok none ↦ some (ok frames)
      | ok (some frame) ↦ frames_loop fuel rest (frames ++ frame ∷ [])
    ]

-- Each round takes five bytes at least.
unfoldable pub parse_frontend_cycle_frames : Bytes → Option (Result (List FrontendFrame))
parse_frontend_cycle_frames bytes = frames_loop (suc (length bytes)) bytes []
