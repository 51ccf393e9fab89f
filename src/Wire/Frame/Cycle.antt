-- ===== src/Wire/Frame/Cycle.antt =====
-- The loop that takes a buffer apart into frames
-- (crates/pg-kinetic-proxy/src/engine/io_runtime.rs).
use pg_kinetic.Prelude.{
  refl, inl, inr, length-drop, ℕ, zero, suc, ◌-◌, ◌≤◌, ◌<◌, ◌≡◌, ap, sym, none, some, List, [], ◌∷◌,
  ◌++◌, arith, length, All, Bytes, length-append, append_assoc, append-nil,
}
use pg_kinetic.Wire.Buffer.{put_i32, i32_of}
use pg_kinetic.Wire.Protocol.{Result, ok, err, Result-cases}
use pg_kinetic.Wire.Frame.{
  FrontendFrame, parse_frontend_frame, encode_frontend_frame, frames_loop,
  parse_frontend_cycle_frames,
}
use pg_kinetic.Wire.Frame.RoundTrip.{Fits, parse-encode, parse_header}

-- The bytes of a sequence of frames.
abbrev pub encode_all : List FrontendFrame → Bytes
encode_all [] = []
encode_all (f ∷ fs) = encode_frontend_frame f ++ encode_all fs

pub length-encode_all : (fs : List FrontendFrame) → length fs ≤ length (encode_all fs)
unfolding encode_frontend_frame put_i32
length-encode_all [] = omega arith
length-encode_all (f ∷ fs) =
    omega (arith, length-append f.payload (encode_all fs), length-encode_all fs)

pub frames_loop-encode_all :
    (fuel : ℕ) (fs : List FrontendFrame) (tail : Bytes) (frames : List FrontendFrame)
    → length fs < fuel
    → All Fits fs
    → parse_frontend_frame tail ≡ (ok none, tail)
    → frames_loop fuel (encode_all fs ++ tail) frames ≡ some (ok (frames ++ fs))
unfolding frames_loop
frames_loop-encode_all zero fs tail frames h fits e = absurd (omega arith)
frames_loop-encode_all (suc fuel) [] tail frames h fits e =
    rw (e, frames_loop) (ap (λ l. some (ok l)) (sym (append-nil frames)))
frames_loop-encode_all (suc fuel) (f ∷ fs) tail frames h fits e = ground (
  arith,
  append_assoc (encode_frontend_frame f) (encode_all fs) tail,
  parse-encode f (encode_all fs ++ tail),
  frames_loop-encode_all fuel fs tail (frames ++ f ∷ []),
  append_assoc frames (f ∷ []) fs,
)

-- A buffer of whole frames, each of a length that fits an i32, and of a tail that the frame parser
-- waits on gives exactly those frames, in order.
pub parse_frontend_cycle_frames-encode_all :
    (fs : List FrontendFrame) (tail : Bytes)
    → All Fits fs
    → parse_frontend_frame tail ≡ (ok none, tail)
    → parse_frontend_cycle_frames (encode_all fs ++ tail) ≡ some (ok fs)
unfolding parse_frontend_cycle_frames
parse_frontend_cycle_frames-encode_all fs tail fits e =
    frames_loop-encode_all _ fs tail []
      (omega (arith, length-encode_all fs, length-append (encode_all fs) tail)) fits e

parse_shrinks_header :
    (tag b1 b2 b3 b4 : ℕ) (body : Bytes) (f : FrontendFrame)
    → (parse_frontend_frame (tag ∷ b1 ∷ b2 ∷ b3 ∷ b4 ∷ body)).0 ≡ ok (some f)
    → length (parse_frontend_frame (tag ∷ b1 ∷ b2 ∷ b3 ∷ b4 ∷ body)).1
      < length (tag ∷ b1 ∷ b2 ∷ b3 ∷ b4 ∷ body)
parse_shrinks_header tag b1 b2 b3 b4 body f h =
    ground (arith, h, parse_header tag b1 b2 b3 b4 body, length-drop (i32_of b1 b2 b3 b4 - 4) body)

-- A round that finds a frame leaves a shorter buffer.
parse_shrinks :
    (buffer : Bytes) (f : FrontendFrame)
    → (parse_frontend_frame buffer).0 ≡ ok (some f)
    → length (parse_frontend_frame buffer).1 < length buffer
unfolding parse_frontend_frame
parse_shrinks (tag ∷ b1 ∷ b2 ∷ b3 ∷ b4 ∷ body) f h = parse_shrinks_header tag b1 b2 b3 b4 body f h
parse_shrinks (tag ∷ b1 ∷ b2 ∷ b3 ∷ []) f h = ground (arith, h)
parse_shrinks (tag ∷ b1 ∷ b2 ∷ []) f h = ground (arith, h)
parse_shrinks (tag ∷ b1 ∷ []) f h = ground (arith, h)
parse_shrinks (tag ∷ []) f h = ground (arith, h)
parse_shrinks [] f h = ground (arith, h)

pub frames_loop_total :
    (fuel : ℕ) (buffer : Bytes) (frames : List FrontendFrame)
    → length buffer < fuel
    → (r : Result (List FrontendFrame)) × (frames_loop fuel buffer frames ≡ some r)
unfolding frames_loop
frames_loop_total zero buffer frames h = absurd (omega (arith, h))
frames_loop_total (suc fuel) buffer frames h = elim (Result-cases (parse_frontend_frame buffer).0) [
  | inr (e, found) ↦ (err e, rw (found, frames_loop) refl)
  | inl (none, found) ↦ (ok frames, rw (found, frames_loop) refl)
  | inl (some f, found) ↦
      let (r, done) =
        frames_loop_total fuel (parse_frontend_frame buffer).1 (frames ++ f ∷ [])
          (omega (arith, h, parse_shrinks buffer f found)) in
      (r, rw (found, frames_loop) done)
]

-- The loop over the frames of a buffer ends on every buffer, with the frames or an error.
pub parse_frontend_cycle_frames_total :
    (bytes : Bytes)
    → (r : Result (List FrontendFrame)) × (parse_frontend_cycle_frames bytes ≡ some r)
unfolding parse_frontend_cycle_frames
parse_frontend_cycle_frames_total bytes =
    frames_loop_total (suc (length bytes)) bytes [] (omega arith)
