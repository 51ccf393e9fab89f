-- ===== src/Cycle/Split.antt =====
-- What a cycle takes of a sequence of frames, said without bytes
-- (crates/pg-kinetic-proxy/src/engine/io_runtime.rs).
use pg_kinetic.Prelude.{
  ℕ, Bool-cases, Option, none, some, List, [], ◌∷◌, ◌++◌, if◌then◌else◌, ◌==◌, All, ◌≡◌, refl, ap,
  ◌∙◌, inl, inr, append_assoc,
}
use pg_kinetic.Wire.Protocol.{FrontendTag, frontend_byte}
use pg_kinetic.Wire.Frame.{FrontendFrame, encode_frontend_frame}
use pg_kinetic.Wire.Frame.RoundTrip.{Fits}
use pg_kinetic.Wire.Frame.Cycle.{encode_all}
use pg_kinetic.Cycle.{
  FrontendCycleRead, complete, terminate, need_more_bytes, is_query, is_extended_cycle_boundary,
  from_frames,
}

abbrev pub Split : Type 0
Split = List FrontendFrame × List FrontendFrame

abbrev pub with_first : FrontendFrame → Split → Split
with_first f (taken, left) = (f ∷ taken, left)

-- The run of simple queries at the start.
abbrev pub queries : List FrontendFrame → Split
queries [] = ([], [])
queries (f ∷ fs) = if is_query f.tag then with_first f (queries fs) else ([], f ∷ fs)

abbrev pub map_first : FrontendFrame → Option Split → Option Split
map_first f none = none
map_first f (some split) = some (with_first f split)

-- The frames behind one of tag `last`, up to a boundary.
unfoldable pub to_boundary : ℕ → List FrontendFrame → Option Split
unfolding is_extended_cycle_boundary
to_boundary last [] = if is_extended_cycle_boundary last then some ([], []) else none
to_boundary last (f ∷ fs) =
    let rest = map_first f (to_boundary f.tag fs) in
    if is_extended_cycle_boundary last then some ([], f ∷ fs) else rest

-- What is taken of the frames `fs`, and what is left: simple queries as far as they go, or an
-- extended cycle, once its boundary is there.
unfoldable pub completed : FrontendFrame → Split → FrontendCycleRead × List FrontendFrame
unfolding from_frames
completed f (taken, left) = (complete (encode_all (f ∷ taken)) (from_frames (f ∷ taken)), left)

unfoldable pub if_bounded :
    FrontendFrame → List FrontendFrame → Option Split → FrontendCycleRead × List FrontendFrame
unfolding completed
if_bounded f fs none = (need_more_bytes, f ∷ fs)
if_bounded f fs (some split) = completed f split

unfoldable pub cycle_of : List FrontendFrame → FrontendCycleRead × List FrontendFrame
unfolding to_boundary if_bounded completed
cycle_of [] = (need_more_bytes, [])
cycle_of (f ∷ fs) =
    if f.tag == frontend_byte FrontendTag.terminate
    then (terminate (encode_frontend_frame f), fs)
    else if is_query f.tag
    then completed f (queries fs)
    else if_bounded f fs (to_boundary f.tag fs)

-- The two parts of a split are the frames.
abbrev pub IsSplit : List FrontendFrame → Split → Type 0
IsSplit fs (taken, left) = (encode_all taken ++ encode_all left ≡ encode_all fs) × All Fits taken

pub queries-IsSplit : (fs : List FrontendFrame) → All Fits fs → IsSplit fs (queries fs)
queries-IsSplit [] h = (refl, tt)
queries-IsSplit (f ∷ fs) h = elim (Bool-cases (is_query f.tag)) [
  | inr e ↦ rw e (refl, tt)
  | inl e ↦
      let (joined, fit) = queries-IsSplit fs h.1 in
      rw e (
        append_assoc (encode_frontend_frame f) (encode_all (queries fs).0)
              (encode_all (queries fs).1)
            ∙ ap (λ bs. encode_frontend_frame f ++ bs) joined,
        (h.0, fit),
      )
]

pub prefixed-IsSplit :
    (f : FrontendFrame) (fs : List FrontendFrame) (split : Split)
    → Fits f
    → IsSplit fs split
    → IsSplit (f ∷ fs) (with_first f split)
prefixed-IsSplit f fs (taken, left) fits (joined, fit) = (
  append_assoc (encode_frontend_frame f) (encode_all taken) (encode_all left)
      ∙ ap (λ bs. encode_frontend_frame f ++ bs) joined,
  (fits, fit),
)

abbrev pub IfSplit : List FrontendFrame → Option Split → Type 0
IfSplit fs none = Unit
IfSplit fs (some split) = IsSplit fs split

pub map_first-IfSplit :
    (f : FrontendFrame) (fs : List FrontendFrame) (o : Option Split)
    → Fits f
    → IfSplit fs o
    → IfSplit (f ∷ fs) (map_first f o)
map_first-IfSplit f fs none fits h = tt
map_first-IfSplit f fs (some split) fits h = prefixed-IsSplit f fs split fits h

pub to_boundary-IfSplit :
    (last : ℕ) (fs : List FrontendFrame) → All Fits fs → IfSplit fs (to_boundary last fs)
unfolding to_boundary
to_boundary-IfSplit last [] h = elim (Bool-cases (is_extended_cycle_boundary last)) [
  | inl e ↦ rw e (refl, tt)
  | inr e ↦ rw e tt
]
to_boundary-IfSplit last (f ∷ fs) h = elim (Bool-cases (is_extended_cycle_boundary last)) [
  | inl e ↦ rw e (refl, tt)
  | inr e ↦ rw e (map_first-IfSplit f fs _ h.0 (to_boundary-IfSplit f.tag fs h.1))
]
