-- ===== src/Cycle.antt =====
-- The reading of a client's bytes in cycles, of crates/pg-kinetic-proxy/src/engine/io_runtime.rs. A
-- cycle is what the proxy sends to a backend at once: a run of simple queries, or extended messages
-- up to a Sync or a Flush. The outer `none` means a panic, or that the fuel ran out.
pub mod Lengths
pub mod Loops
pub mod Total
pub mod Split
pub mod Ends
pub mod Reference
pub mod Startup
mod Tests
use pg_kinetic.Prelude.{
  ℕ, zero, suc, ◌+◌, Bool, true, false, ◌&&◌, ◌||◌, not, Option, none, some, List, [], ◌∷◌,
  if◌then◌else◌, ltb, leb, ◌==◌, length, take, drop, Bytes,
}
use pg_kinetic.Wire.Buffer.{i32_of, i32_ltb}
use pg_kinetic.Wire.Protocol.{Result, ok, err, FrontendTag, frontend_byte, BackendTag, backend_byte}
use pg_kinetic.Wire.Frame.{FrontendFrame, parse_frontend_frame, frames_loop}

pub record FrontendCycleShape : Type 0 where
  pub expected_ready_count : ℕ
  pub expected_completion_count : ℕ
  pub needs_sync : Bool

unfoldable pub is_extended_cycle_boundary : ℕ → Bool
is_extended_cycle_boundary tag =
    tag == frontend_byte FrontendTag.sync || tag == frontend_byte FrontendTag.flush

unfoldable pub expects_backend_completion : ℕ → Bool
expects_backend_completion tag =
    tag == frontend_byte FrontendTag.parse
    || (tag == frontend_byte FrontendTag.bind
        || (tag == frontend_byte FrontendTag.describe
            || (tag == frontend_byte FrontendTag.execute
                || tag == frontend_byte FrontendTag.close)))

unfoldable pub is_backend_cycle_completion : ℕ → Bool
is_backend_cycle_completion tag =
    tag == backend_byte BackendTag.parse_complete
    || (tag == backend_byte BackendTag.bind_complete
        || (tag == backend_byte BackendTag.close_complete
            || (tag == backend_byte BackendTag.row_description
                || (tag == backend_byte BackendTag.no_data
                    || (tag == backend_byte BackendTag.command_complete
                        || (tag == backend_byte BackendTag.empty_query_response
                            || tag == backend_byte BackendTag.portal_suspended))))))

pub data FrontendCycleRead : Type 0 where
  complete : Bytes → FrontendCycleShape → FrontendCycleRead
  terminate : Bytes → FrontendCycleRead
  buffer_limit_exceeded need_more_bytes : FrontendCycleRead

abbrev pub is_query : ℕ → Bool
is_query tag = tag == frontend_byte FrontendTag.query

-- `frames.iter().filter(…).count()`, by the tag.
abbrev pub count_tags : (ℕ → Bool) → List FrontendFrame → ℕ
count_tags p [] = 0
count_tags p (f ∷ fs) = let rest = count_tags p fs in if p f.tag then rest + 1 else rest

abbrev pub any_tag : (ℕ → Bool) → List FrontendFrame → Bool
any_tag p [] = false
any_tag p (f ∷ fs) = p f.tag || any_tag p fs

abbrev pub last_tag_is : (ℕ → Bool) → List FrontendFrame → Bool
last_tag_is p [] = false
last_tag_is p (f ∷ []) = p f.tag
last_tag_is p (_ ∷ f ∷ fs) = last_tag_is p (f ∷ fs)

unfoldable pub from_frames : List FrontendFrame → FrontendCycleShape
unfolding expects_backend_completion
from_frames frames =
    let ends_with_sync = last_tag_is (λ tag. tag == frontend_byte FrontendTag.sync) frames in
    let ready = count_tags is_query frames + (if ends_with_sync then 1 else 0) in
    record {
      expected_ready_count = ready;
      expected_completion_count =
          if ready == 0 then count_tags expects_backend_completion frames else 0;
      needs_sync = any_tag (λ tag. not (is_query tag)) frames;
    }

abbrev pub shape_of : List FrontendFrame → Option FrontendCycleShape
unfolding from_frames
shape_of [] = none
shape_of (f ∷ fs) = some (from_frames (f ∷ fs))

abbrev pub shaped : Result (List FrontendFrame) → Result (Option FrontendCycleShape)
unfolding shape_of
shaped (ok frames) = ok (shape_of frames)
shaped (err e) = err e

unfoldable pub from_wire_bytes : Bytes → Option (Result (Option FrontendCycleShape))
unfolding frames_loop shaped
from_wire_bytes bytes = elim (frames_loop (suc (length bytes)) bytes []) [
  | none ↦ none
  | some r ↦ some (shaped r)
]

-- The parser is called for its error; were there none, `unreachable!` would panic.
abbrev pub rejected : Result (Option FrontendFrame) → Option (Result (Option ℕ))
rejected (err e) = some (err e)
rejected (ok _) = none

unfoldable pub complete_frontend_frame_len : Bytes → Option (Result (Option ℕ))
unfolding parse_frontend_frame
complete_frontend_frame_len (tag ∷ b1 ∷ b2 ∷ b3 ∷ b4 ∷ body) =
    let bytes = tag ∷ b1 ∷ b2 ∷ b3 ∷ b4 ∷ body in
    let len = i32_of b1 b2 b3 b4 in
    if i32_ltb len 4
    then rejected (parse_frontend_frame bytes).0
    else some (ok (if leb (1 + len) (length bytes) then some (1 + len) else none))
complete_frontend_frame_len bytes = some (ok none)

-- The byte at the start, which is there where a frame is complete.
abbrev pub tag_of : Bytes → ℕ
tag_of [] = 0
tag_of (b ∷ _) = b

-- The loop over simple queries: where the run of them ends.
unfoldable pub query_end : ℕ → Bytes → ℕ → Option (Result ℕ)
unfolding complete_frontend_frame_len
query_end zero buffer cycle_len = none
query_end (suc fuel) buffer cycle_len = elim (complete_frontend_frame_len (drop cycle_len buffer)) [
  | none ↦ none
  | some (err e) ↦ some (err e)
  | some (ok none) ↦ some (ok cycle_len)
  | some (ok (some next_len)) ↦
      let rest = query_end fuel buffer (cycle_len + next_len) in
      if is_query (tag_of (drop cycle_len buffer)) then rest else some (ok cycle_len)
]

-- The loop over extended messages: where the cycle ends, or `none` when more bytes are needed.
unfoldable pub extended_end : ℕ → Bytes → ℕ → ℕ → Option (Result (Option ℕ))
unfolding complete_frontend_frame_len is_extended_cycle_boundary
extended_end zero buffer last_tag cycle_len = none
extended_end (suc fuel) buffer last_tag cycle_len =
    let round : Option (Result (Option ℕ)) =
      elim (complete_frontend_frame_len (drop cycle_len buffer)) [
        | none ↦ none
        | some (err e) ↦ some (err e)
        | some (ok none) ↦ some (ok none)
        | some (ok (some next_len)) ↦
            extended_end fuel buffer (tag_of (drop cycle_len buffer)) (cycle_len + next_len)
      ] in
    if is_extended_cycle_boundary last_tag then some (ok (some cycle_len)) else round

-- The last lines: the bytes of the cycle leave the buffer; without frames `expect` would panic.
abbrev pub with_shape :
    Bytes → Option (Result (Option FrontendCycleShape)) → Option (Result FrontendCycleRead)
with_shape bytes none = none
with_shape bytes (some (err e)) = some (err e)
with_shape bytes (some (ok none)) = none
with_shape bytes (some (ok (some shape))) = some (ok (complete bytes shape))

unfoldable pub finish : Bytes → ℕ → Option (Result FrontendCycleRead) × Bytes
unfolding from_wire_bytes
finish buffer cycle_len = (
  with_shape (take cycle_len buffer) (from_wire_bytes (take cycle_len buffer)),
  drop cycle_len buffer,
)

abbrev pub after_queries : Bytes → Option (Result ℕ) → Option (Result FrontendCycleRead) × Bytes
unfolding finish
after_queries buffer none = (none, buffer)
after_queries buffer (some (err e)) = (some (err e), buffer)
after_queries buffer (some (ok cycle_len)) = finish buffer cycle_len

abbrev pub after_extended :
    Bytes → Option (Result (Option ℕ)) → Option (Result FrontendCycleRead) × Bytes
unfolding finish
after_extended buffer none = (none, buffer)
after_extended buffer (some (err e)) = (some (err e), buffer)
after_extended buffer (some (ok none)) = (some (ok need_more_bytes), buffer)
after_extended buffer (some (ok (some cycle_len))) = finish buffer cycle_len

-- What follows a first frame of `first_len` bytes.
abbrev pub from_first : Bytes → ℕ → Option (Result FrontendCycleRead) × Bytes
unfolding query_end extended_end after_queries after_extended
from_first buffer first_len =
    let first_tag = tag_of buffer in
    let fuel = suc (length buffer) in
    if first_tag == frontend_byte FrontendTag.terminate
    then (some (ok (terminate (take first_len buffer))), drop first_len buffer)
    else if is_query first_tag
    then after_queries buffer (query_end fuel buffer first_len)
    else after_extended buffer (extended_end fuel buffer first_tag first_len)

abbrev pub after_first :
    Bytes → Option (Result (Option ℕ)) → Option (Result FrontendCycleRead) × Bytes
unfolding from_first
after_first buffer none = (none, buffer)
after_first buffer (some (err e)) = (some (err e), buffer)
after_first buffer (some (ok none)) = (some (ok need_more_bytes), buffer)
after_first buffer (some (ok (some first_len))) = from_first buffer first_len

-- The result, and the buffer that is left.
unfoldable pub take_frontend_cycle_bytes : Bytes → ℕ → Option (Result FrontendCycleRead) × Bytes
unfolding after_first complete_frontend_frame_len
take_frontend_cycle_bytes buffer max_client_buffer_bytes =
    if ltb max_client_buffer_bytes (length buffer)
    then (some (ok buffer_limit_exceeded), buffer)
    else after_first buffer (complete_frontend_frame_len buffer)
