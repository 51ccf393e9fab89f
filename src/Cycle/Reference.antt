-- ===== src/Cycle/Reference.antt =====
-- The bytes that a cycle takes of whole frames, against what it takes of the frames
-- (crates/pg-kinetic-proxy/src/engine/io_runtime.rs).
use pg_kinetic.Prelude.{
  ℕ, suc, ◌+◌, ◌<◌, ◌≤◌, Bool, true, false, Option, none, some, List, [], ◌∷◌, ◌++◌, if◌then◌else◌,
  ◌==◌, length, All, take, drop, Bytes, ◌≡◌, refl, sym, ap, ◌∙◌, subst, arith, append_assoc,
  append-nil, length-append, take-append, drop-append,
}
use pg_kinetic.Wire.Protocol.{Result, ok, FrontendTag, frontend_byte}
use pg_kinetic.Wire.Frame.{FrontendFrame, parse_frontend_frame, encode_frontend_frame, frames_loop}
use pg_kinetic.Wire.Frame.RoundTrip.{Fits}
use pg_kinetic.Wire.Frame.Cycle.{encode_all, frames_loop-encode_all, length-encode_all}
use pg_kinetic.Cycle.{
  FrontendCycleRead, complete, terminate, is_query, from_frames, from_wire_bytes, query_end,
  extended_end, shaped, finish, after_queries, after_extended, from_first,
  take_frontend_cycle_bytes,
}
use pg_kinetic.Cycle.Lengths.{complete_frontend_frame_len-encode, complete_frontend_frame_len-wait}
use pg_kinetic.Cycle.Split.{
  Split, queries, to_boundary, completed, if_bounded, cycle_of, IsSplit, queries-IsSplit, IfSplit,
  to_boundary-IfSplit,
}
use pg_kinetic.Cycle.Ends.{AtFrames, next_frames, query_end-frames, end_of, extended_end-frames}

frames_of :
    (fs : List FrontendFrame)
    → All Fits fs
    → frames_loop (suc (length (encode_all fs))) (encode_all fs) [] ≡ some (ok fs)
unfolding parse_frontend_frame
frames_of fs h =
    subst (λ bs. frames_loop (suc (length (encode_all fs))) bs [] ≡ some (ok fs))
      (append-nil (encode_all fs))
      (frames_loop-encode_all _ fs [] [] (omega (arith, length-encode_all fs)) h refl)

from_wire_bytes-encode_all :
    (f : FrontendFrame) (fs : List FrontendFrame)
    → All Fits (f ∷ fs)
    → from_wire_bytes (encode_all (f ∷ fs)) ≡ some (ok (some (from_frames (f ∷ fs))))
unfolding from_wire_bytes
from_wire_bytes-encode_all f fs h =
    ap (λ o. elim o [ none ↦ none | some r ↦ some (shaped r) ]) (frames_of (f ∷ fs) h)

finish-frames :
    (f : FrontendFrame) (taken : List FrontendFrame) (rest : Bytes)
    → All Fits (f ∷ taken)
    → finish (encode_all (f ∷ taken) ++ rest) (length (encode_all (f ∷ taken)))
      ≡ (some (ok (complete (encode_all (f ∷ taken)) (from_frames (f ∷ taken)))), rest)
unfolding finish
finish-frames f taken rest h =
    let bs : Bytes = encode_all (f ∷ taken) in
    rw (take-append bs rest, drop-append bs rest, from_wire_bytes-encode_all f taken h) refl

-- Whole frames, and a tail that the parser waits on.
abbrev Ends : List FrontendFrame → Bytes → Type 0
Ends fs tail = All Fits fs × (parse_frontend_frame tail ≡ (ok none, tail))

abbrev read_as :
    FrontendCycleRead × List FrontendFrame → Bytes → Option (Result FrontendCycleRead) × Bytes
read_as (r, left) tail = (some (ok r), encode_all left ++ tail)

regrouped : (a b c d t : Bytes) → b ++ c ≡ d → (a ++ d) ++ t ≡ (a ++ b) ++ (c ++ t)
regrouped a b c d t e =
    append_assoc a d t
    ∙ (ap (λ bs. a ++ bs) (ap (λ bs. bs ++ t) (sym e) ∙ append_assoc b c t)
        ∙ sym (append_assoc a b (c ++ t)))

finish-split :
    (f : FrontendFrame) (fs : List FrontendFrame) (split : Split) (tail : Bytes)
    → Fits f
    → IsSplit fs split
    → finish
        (encode_all (f ∷ fs) ++ tail)
        (length (encode_frontend_frame f) + length (encode_all split.0))
      ≡ read_as (completed f split) tail
unfolding completed
finish-split f fs (taken, left) tail fits (joined, fit) =
    let len = length-append (encode_frontend_frame f) (encode_all taken) in
    let bytes : encode_all (f ∷ fs) ++ tail ≡ encode_all (f ∷ taken) ++ (encode_all left ++ tail) =
      regrouped (encode_frontend_frame f) (encode_all taken) (encode_all left) (encode_all fs) tail
        joined in
    subst (λ n. finish (encode_all (f ∷ fs) ++ tail) n ≡ read_as (completed f (taken, left)) tail)
      len
      (subst
        (λ bs.
          finish bs (length (encode_all (f ∷ taken))) ≡ read_as (completed f (taken, left)) tail)
        (sym bytes) (finish-frames f taken (encode_all left ++ tail) (fits, fit)))

frames_behind :
    (f : FrontendFrame) (fs : List FrontendFrame) (tail : Bytes)
    → Ends (f ∷ fs) tail
    → AtFrames (encode_all (f ∷ fs) ++ tail) (length (encode_frontend_frame f)) fs tail
frames_behind f fs tail (h, e) =
    let start : AtFrames (encode_all (f ∷ fs) ++ tail) 0 (f ∷ fs) tail = record {
      bytes = refl;
      fit = h;
      waits = e;
    } in
    let n : 0 + length (encode_frontend_frame f) ≡ length (encode_frontend_frame f) = omega arith in
    subst (λ n. AtFrames (encode_all (f ∷ fs) ++ tail) n fs tail) n
      (next_frames _ 0 f fs tail start)

fuel_enough :
    (f : FrontendFrame) (fs : List FrontendFrame) (tail : Bytes)
    → length fs < suc (length (encode_all (f ∷ fs) ++ tail))
fuel_enough f fs tail =
    omega (arith, length-encode_all (f ∷ fs), length-append (encode_all (f ∷ fs)) tail)

after_queries-frames :
    (f : FrontendFrame) (fs : List FrontendFrame) (tail : Bytes)
    → Ends (f ∷ fs) tail
    → let buffer = encode_all (f ∷ fs) ++ tail in
      after_queries buffer
        (query_end (suc (length buffer)) buffer (length (encode_frontend_frame f)))
      ≡ read_as (completed f (queries fs)) tail
unfolding after_queries
after_queries-frames f fs tail h =
    ap (after_queries _)
      (query_end-frames _ _ _ fs tail (fuel_enough f fs tail) (frames_behind f fs tail h))
    ∙ finish-split f fs (queries fs) tail h.0.0 (queries-IsSplit fs h.0.1)

end_of-if_bounded :
    (f : FrontendFrame) (fs : List FrontendFrame) (o : Option Split) (tail : Bytes)
    → Fits f
    → IfSplit fs o
    → after_extended (encode_all (f ∷ fs) ++ tail) (end_of (length (encode_frontend_frame f)) o)
      ≡ read_as (if_bounded f fs o) tail
unfolding after_extended if_bounded
end_of-if_bounded f fs none tail fits h = refl
end_of-if_bounded f fs (some split) tail fits h = finish-split f fs split tail fits h

after_extended-frames :
    (f : FrontendFrame) (fs : List FrontendFrame) (tail : Bytes)
    → Ends (f ∷ fs) tail
    → let buffer = encode_all (f ∷ fs) ++ tail in
      after_extended buffer
        (extended_end (suc (length buffer)) buffer f.tag (length (encode_frontend_frame f)))
      ≡ read_as (if_bounded f fs (to_boundary f.tag fs)) tail
unfolding after_extended
after_extended-frames f fs tail h =
    ap (after_extended _)
      (extended_end-frames _ _ f.tag _ fs tail (fuel_enough f fs tail) (frames_behind f fs tail h))
    ∙ end_of-if_bounded f fs (to_boundary f.tag fs) tail h.0.0 (to_boundary-IfSplit f.tag fs h.0.1)

terminate-frames :
    (f : FrontendFrame) (fs : List FrontendFrame) (tail : Bytes)
    → let buffer = encode_all (f ∷ fs) ++ tail in
      let n = length (encode_frontend_frame f) in
      Path
        (Option (Result FrontendCycleRead) × Bytes)
        (some (ok (terminate (take n buffer))), drop n buffer)
        (read_as (terminate (encode_frontend_frame f), fs) tail)
terminate-frames f fs tail =
    let bs = encode_frontend_frame f in
    let rest = encode_all fs ++ tail in
    rw (append_assoc bs (encode_all fs) tail, take-append bs rest, drop-append bs rest) refl

chosen :
    {A B : Type 0} (g : A → B) (a b : Bool) (x y z : B) (x' y' z' : A)
    → x ≡ g x'
    → y ≡ g y'
    → z ≡ g z'
    → (if a then x else if b then y else z) ≡ g (if a then x' else if b then y' else z')
chosen g true b x y z x' y' z' hx hy hz = hx
chosen g false true x y z x' y' z' hx hy hz = hy
chosen g false false x y z x' y' z' hx hy hz = hz

from_first-frames :
    (f : FrontendFrame) (fs : List FrontendFrame) (tail : Bytes)
    → Ends (f ∷ fs) tail
    → from_first (encode_all (f ∷ fs) ++ tail) (length (encode_frontend_frame f))
      ≡ read_as (cycle_of (f ∷ fs)) tail
unfolding from_first cycle_of encode_frontend_frame
from_first-frames f fs tail h =
    chosen (λ r. read_as r tail) (f.tag == frontend_byte FrontendTag.terminate) (is_query f.tag) _ _
      _ (terminate (encode_frontend_frame f), fs) (completed f (queries fs))
      (if_bounded f fs (to_boundary f.tag fs)) (terminate-frames f fs tail)
      (after_queries-frames f fs tail h) (after_extended-frames f fs tail h)

-- On whole frames, each of a length that fits an i32, and a tail that the parser waits on,
-- within the limit, the cycle that is taken is the one that the frames make, and the bytes of
-- the other frames and the tail are left.
pub take_frontend_cycle_bytes-encode_all :
    (fs : List FrontendFrame) (tail : Bytes) (max : ℕ)
    → All Fits fs
    → parse_frontend_frame tail ≡ (ok none, tail)
    → length (encode_all fs ++ tail) ≤ max
    → take_frontend_cycle_bytes (encode_all fs ++ tail) max
      ≡ (some (ok (cycle_of fs).0), encode_all (cycle_of fs).1 ++ tail)
unfolding take_frontend_cycle_bytes cycle_of
take_frontend_cycle_bytes-encode_all [] tail max h e l =
    ground (arith, complete_frontend_frame_len-wait tail e)
take_frontend_cycle_bytes-encode_all (f ∷ fs) tail max h e l = ground (
  arith,
  complete_frontend_frame_len-encode f (encode_all fs ++ tail) h.0,
  append_assoc (encode_frontend_frame f) (encode_all fs) tail,
  from_first-frames f fs tail (h, e),
)
