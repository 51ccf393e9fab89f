-- ===== src/Cycle/Ends.antt =====
-- Where the loops over whole frames end (crates/pg-kinetic-proxy/src/engine/io_runtime.rs).
use pg_kinetic.Prelude.{
  ℕ, zero, suc, ◌+◌, ◌<◌, Option, none, some, List, [], ◌∷◌, ◌++◌, length, All, drop, Bytes, ◌≡◌,
  refl, sym, ap, ◌∙◌, arith, append_assoc, length-append, drop-append, drop-drop,
}
use pg_kinetic.Wire.Protocol.{Result, ok}
use pg_kinetic.Wire.Frame.{FrontendFrame, parse_frontend_frame, encode_frontend_frame}
use pg_kinetic.Wire.Frame.RoundTrip.{Fits}
use pg_kinetic.Wire.Frame.Cycle.{encode_all}
use pg_kinetic.Cycle.{
  is_extended_cycle_boundary, complete_frontend_frame_len, tag_of, query_end, extended_end,
}
use pg_kinetic.Cycle.Lengths.{
  complete_frontend_frame_len-encode, complete_frontend_frame_len-wait, tag_of-encode,
}
use pg_kinetic.Cycle.Split.{Split, queries, map_first, to_boundary}

-- The frame at an offset, and what stands behind it.
pub behind :
    (buffer : Bytes) (n : ℕ) (f : FrontendFrame) (rest : Bytes)
    → drop n buffer ≡ encode_frontend_frame f ++ rest
    → drop (n + length (encode_frontend_frame f)) buffer ≡ rest
behind buffer n f rest h =
    sym (drop-drop n (length (encode_frontend_frame f)) buffer)
    ∙ (ap (drop (length (encode_frontend_frame f))) h ∙ drop-append (encode_frontend_frame f) rest)

-- A buffer of whole frames behind an offset, and of a tail that the parser waits on.
pub record AtFrames (buffer : Bytes) (n : ℕ) (fs : List FrontendFrame) (tail : Bytes) : Type 0 where
  pub bytes : drop n buffer ≡ encode_all fs ++ tail
  pub fit : All Fits fs
  pub waits : parse_frontend_frame tail ≡ (ok none, tail)

pub found_none :
    (buffer : Bytes) (n : ℕ) (tail : Bytes)
    → AtFrames buffer n [] tail
    → complete_frontend_frame_len (drop n buffer) ≡ some (ok none)
found_none buffer n tail h =
    ap complete_frontend_frame_len h.bytes ∙ complete_frontend_frame_len-wait tail h.waits

pub first_bytes :
    (buffer : Bytes) (n : ℕ) (f : FrontendFrame) (fs : List FrontendFrame) (tail : Bytes)
    → AtFrames buffer n (f ∷ fs) tail
    → drop n buffer ≡ encode_frontend_frame f ++ (encode_all fs ++ tail)
first_bytes buffer n f fs tail h =
    h.bytes ∙ append_assoc (encode_frontend_frame f) (encode_all fs) tail

pub found_some :
    (buffer : Bytes) (n : ℕ) (f : FrontendFrame) (fs : List FrontendFrame) (tail : Bytes)
    → AtFrames buffer n (f ∷ fs) tail
    → complete_frontend_frame_len (drop n buffer)
      ≡ some (ok (some (length (encode_frontend_frame f))))
found_some buffer n f fs tail h =
    ap complete_frontend_frame_len (first_bytes buffer n f fs tail h)
    ∙ complete_frontend_frame_len-encode f (encode_all fs ++ tail) h.fit.0

pub found_tag :
    (buffer : Bytes) (n : ℕ) (f : FrontendFrame) (fs : List FrontendFrame) (tail : Bytes)
    → AtFrames buffer n (f ∷ fs) tail
    → tag_of (drop n buffer) ≡ f.tag
found_tag buffer n f fs tail h =
    ap tag_of (first_bytes buffer n f fs tail h) ∙ tag_of-encode f (encode_all fs ++ tail)

pub next_frames :
    (buffer : Bytes) (n : ℕ) (f : FrontendFrame) (fs : List FrontendFrame) (tail : Bytes)
    → AtFrames buffer n (f ∷ fs) tail
    → AtFrames buffer (n + length (encode_frontend_frame f)) fs tail
next_frames buffer n f fs tail h = record {
  bytes = behind buffer n f (encode_all fs ++ tail) (first_bytes buffer n f fs tail h);
  fit = h.fit.1;
  waits = h.waits;
}

pub query_end-frames :
    (fuel : ℕ) (buffer : Bytes) (n : ℕ) (fs : List FrontendFrame) (tail : Bytes)
    → length fs < fuel
    → AtFrames buffer n fs tail
    → query_end fuel buffer n ≡ some (ok (n + length (encode_all (queries fs).0)))
unfolding query_end
query_end-frames zero buffer n fs tail l h = absurd (omega arith)
query_end-frames (suc fuel) buffer n [] tail l h = ground (arith, found_none buffer n tail h)
query_end-frames (suc fuel) buffer n (f ∷ fs) tail l h = ground (
  arith,
  found_some buffer n f fs tail h,
  found_tag buffer n f fs tail h,
  length-append (encode_frontend_frame f) (encode_all (queries fs).0),
  query_end-frames fuel buffer (n + length (encode_frontend_frame f)) fs tail (omega arith)
      (next_frames buffer n f fs tail h),
)

abbrev pub end_of : ℕ → Option Split → Option (Result (Option ℕ))
end_of n none = some (ok none)
end_of n (some (taken, left)) = some (ok (some (n + length (encode_all taken))))

pub end_of-map_first :
    (n : ℕ) (f : FrontendFrame) (split : Option Split)
    → end_of (n + length (encode_frontend_frame f)) split ≡ end_of n (map_first f split)
end_of-map_first n f none = refl
end_of-map_first n f (some (taken, left)) =
    ground (arith, length-append (encode_frontend_frame f) (encode_all taken))

pub extended_end-frames :
    (fuel : ℕ) (buffer : Bytes) (last n : ℕ) (fs : List FrontendFrame) (tail : Bytes)
    → length fs < fuel
    → AtFrames buffer n fs tail
    → extended_end fuel buffer last n ≡ end_of n (to_boundary last fs)
unfolding extended_end is_extended_cycle_boundary to_boundary
extended_end-frames zero buffer last n fs tail l h = absurd (omega arith)
extended_end-frames (suc fuel) buffer last n [] tail l h =
    ground (arith, found_none buffer n tail h)
extended_end-frames (suc fuel) buffer last n (f ∷ fs) tail l h = ground (
  arith,
  found_some buffer n f fs tail h,
  found_tag buffer n f fs tail h,
  end_of-map_first n f (to_boundary f.tag fs),
  extended_end-frames fuel buffer f.tag (n + length (encode_frontend_frame f)) fs tail (omega arith)
      (next_frames buffer n f fs tail h),
)
