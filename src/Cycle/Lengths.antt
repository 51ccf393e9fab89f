-- ===== src/Cycle/Lengths.antt =====
-- The length of the frame at the start of a buffer (crates/pg-kinetic-proxy/src/engine/io_runtime.rs).
use pg_kinetic.Prelude.{
  ℕ, ◌+◌, ◌≤◌, none, some, [], ◌∷◌, ◌++◌, length, Bytes, ◌≡◌, refl, arith, length-append,
}
use pg_kinetic.Wire.Buffer.{put_i32, i32_of_bytes}
use pg_kinetic.Wire.Protocol.{ok}
use pg_kinetic.Wire.Frame.{FrontendFrame, parse_frontend_frame, encode_frontend_frame}
use pg_kinetic.Wire.Frame.RoundTrip.{Fits, parse_header}
use pg_kinetic.Cycle.{complete_frontend_frame_len, tag_of}

-- A whole frame is found, whatever follows it.
pub complete_frontend_frame_len-encode :
    (f : FrontendFrame) (rest : Bytes)
    → Fits f
    → complete_frontend_frame_len (encode_frontend_frame f ++ rest)
      ≡ some (ok (some (length (encode_frontend_frame f))))
unfolding complete_frontend_frame_len encode_frontend_frame put_i32
complete_frontend_frame_len-encode f rest fits =
    ground (arith, i32_of_bytes (length f.payload + 4), length-append f.payload rest)

complete_header :
    (tag b1 b2 b3 b4 : ℕ) (body : Bytes)
    → let buffer = tag ∷ b1 ∷ b2 ∷ b3 ∷ b4 ∷ body in
      parse_frontend_frame buffer ≡ (ok none, buffer)
      → complete_frontend_frame_len buffer ≡ some (ok none)
unfolding complete_frontend_frame_len
complete_header tag b1 b2 b3 b4 body h = ground (arith, h, parse_header tag b1 b2 b3 b4 body)

-- Where the parser waits, no frame is found.
pub complete_frontend_frame_len-wait :
    (buffer : Bytes)
    → parse_frontend_frame buffer ≡ (ok none, buffer)
    → complete_frontend_frame_len buffer ≡ some (ok none)
unfolding complete_frontend_frame_len
complete_frontend_frame_len-wait (tag ∷ b1 ∷ b2 ∷ b3 ∷ b4 ∷ body) h =
    complete_header tag b1 b2 b3 b4 body h
complete_frontend_frame_len-wait [] h = refl
complete_frontend_frame_len-wait (_ ∷ []) h = refl
complete_frontend_frame_len-wait (_ ∷ _ ∷ []) h = refl
complete_frontend_frame_len-wait (_ ∷ _ ∷ _ ∷ []) h = refl
complete_frontend_frame_len-wait (_ ∷ _ ∷ _ ∷ _ ∷ []) h = refl

pub tag_of-encode :
    (f : FrontendFrame) (rest : Bytes) → tag_of (encode_frontend_frame f ++ rest) ≡ f.tag
unfolding encode_frontend_frame
tag_of-encode f rest = refl

pub length-encode : (f : FrontendFrame) → 5 ≤ length (encode_frontend_frame f)
unfolding encode_frontend_frame put_i32
length-encode f = omega arith
