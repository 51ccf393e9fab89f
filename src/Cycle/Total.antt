-- ===== src/Cycle/Total.antt =====
-- That the reading of a cycle always ends, and never panics
-- (crates/pg-kinetic-proxy/src/engine/io_runtime.rs).
use pg_kinetic.Prelude.{
  ℕ, zero, suc, ◌+◌, ◌-◌, ◌≤◌, Bool-cases, Option, none, some, List, [], ◌∷◌, ◌++◌, ltb, ◌==◌,
  length, take, Bytes, ◌≡◌, refl, sym, ap, ◌∙◌, subst, arith, inl, inr, length-take,
}
use pg_kinetic.Wire.Buffer.{i32_of}
use pg_kinetic.Wire.Protocol.{Result, ok, err, FrontendTag, frontend_byte, Result-cases}
use pg_kinetic.Wire.Frame.{FrontendFrame, parse_frontend_frame, frames_loop}
use pg_kinetic.Wire.Frame.RoundTrip.{parse_header}
use pg_kinetic.Wire.Frame.Cycle.{frames_loop_total}
use pg_kinetic.Cycle.{
  FrontendCycleRead, complete, from_frames, buffer_limit_exceeded, need_more_bytes, is_query,
  from_wire_bytes, complete_frontend_frame_len, tag_of, query_end, extended_end, finish,
  after_queries, after_extended, from_first, after_first, take_frontend_cycle_bytes, shaped,
  with_shape, shape_of,
}
use pg_kinetic.Cycle.Loops.{complete-IsLen, Within, query_end_total, WithinIf, extended_end_total}

-- Not the empty list of frames.
abbrev NonEmpty : Result (List FrontendFrame) → Type 0
NonEmpty (ok []) = ⊥
NonEmpty r = Unit

parse_header_take :
    (tag b1 b2 b3 b4 : ℕ) (body : Bytes) (k m : ℕ)
    → complete_frontend_frame_len (tag ∷ b1 ∷ b2 ∷ b3 ∷ b4 ∷ body) ≡ some (ok (some k))
    → k ≤ 5 + m
    → m ≤ length body
    → (f : FrontendFrame) × ((parse_frontend_frame (tag ∷ b1 ∷ b2 ∷ b3 ∷ b4 ∷ take m body)).0
        ≡ ok (some f))
unfolding complete_frontend_frame_len
parse_header_take tag b1 b2 b3 b4 body k m found h l = (
  record { tag = tag; payload = take (i32_of b1 b2 b3 b4 - 4) (take m body) },
  ground (
    arith,
    found,
    parse_header tag b1 b2 b3 b4 body,
    parse_header tag b1 b2 b3 b4 (take m body),
    length-take m body,
  ),
)

parse_take :
    (buffer : Bytes) (k m : ℕ)
    → complete_frontend_frame_len buffer ≡ some (ok (some k))
    → 5 ≤ k
    → k ≤ m
    → m ≤ length buffer
    → (f : FrontendFrame) × ((parse_frontend_frame (take m buffer)).0 ≡ ok (some f))
parse_take buffer zero m found low h l = absurd (omega arith)
parse_take (tag ∷ b1 ∷ b2 ∷ b3 ∷ b4 ∷ body) k (suc (suc (suc (suc (suc m))))) found low h l =
    parse_header_take tag b1 b2 b3 b4 body k m found (omega arith) (omega arith)
parse_take buffer k m found low h l = absurd (omega arith)

frames_loop-NonEmpty :
    (fuel : ℕ) (bytes : Bytes) (f : FrontendFrame) (fs : List FrontendFrame)
    (r : Result (List FrontendFrame))
    → frames_loop fuel bytes (f ∷ fs) ≡ some r
    → NonEmpty r
unfolding frames_loop
frames_loop-NonEmpty zero bytes f fs r h = cc
frames_loop-NonEmpty (suc fuel) bytes f fs r h =
    elim (Result-cases (parse_frontend_frame bytes).0) [
      | inr (e, found) ↦ let same : err e ≡ r = ground (arith, found, h) in subst NonEmpty same tt
      | inl (none, found) ↦
          let same : ok (f ∷ fs) ≡ r = ground (arith, found, h) in subst NonEmpty same tt
      | inl (some g, found) ↦
          frames_loop-NonEmpty fuel (parse_frontend_frame bytes).1 f (fs ++ g ∷ []) r
            (ground (arith, found, h))
    ]

-- Bytes that start with a frame give the shape of a cycle, or an error.
with_shape_total :
    (bytes : Bytes) (r : Result (List FrontendFrame))
    → NonEmpty r
    → (c : Result FrontendCycleRead) × (with_shape bytes (some (shaped r)) ≡ some c)
unfolding shaped shape_of
with_shape_total bytes (err e) h = (err e, refl)
with_shape_total bytes (ok []) h = absurd h
with_shape_total bytes (ok (f ∷ fs)) h = (ok (complete bytes (from_frames (f ∷ fs))), refl)

from_wire_bytes-NonEmpty :
    (bytes : Bytes) (f : FrontendFrame)
    → (parse_frontend_frame bytes).0 ≡ ok (some f)
    → (r : Result (List FrontendFrame)) × ((from_wire_bytes bytes ≡ some (shaped r)) × NonEmpty r)
unfolding from_wire_bytes frames_loop
from_wire_bytes-NonEmpty bytes f found =
    let (r, done) = frames_loop_total (suc (length bytes)) bytes [] (omega arith) in
    (
      r,
      (
        ap (λ o. elim o [ none ↦ none | some r ↦ some (shaped r) ]) done,
        frames_loop-NonEmpty (length bytes) (parse_frontend_frame bytes).1 f [] r
            (ground (arith, found, done)),
      ),
    )

finish_total :
    (buffer : Bytes) (k m : ℕ)
    → complete_frontend_frame_len buffer ≡ some (ok (some k))
    → 5 ≤ k
    → (k ≤ m) × (m ≤ length buffer)
    → (c : Result FrontendCycleRead) × ((finish buffer m).0 ≡ some c)
unfolding finish
finish_total buffer k m found low (l, u) =
    let (f, parsed) = parse_take buffer k m found low l u in
    let (r, (done, some_frame)) = from_wire_bytes-NonEmpty (take m buffer) f parsed in
    let (c, shown) = with_shape_total (take m buffer) r some_frame in
    (c, ap (with_shape (take m buffer)) done ∙ shown)

-- A step of the reading that gives a result.
abbrev Ends : Option (Result FrontendCycleRead) × Bytes → Type 0
Ends read = (c : Result FrontendCycleRead) × (read.0 ≡ some c)

module _ (buffer : Bytes) (k : ℕ) (found : complete_frontend_frame_len buffer ≡ some (ok (some k)))
    (low : 5 ≤ k) (high : k ≤ length buffer) where
  after_queries_total : (r : Result ℕ) → Within k buffer r → Ends (after_queries buffer (some r))
  unfolding after_queries
  after_queries_total (err e) h = (err e, refl)
  after_queries_total (ok m) h = finish_total buffer k m found low h

  after_extended_total :
      (r : Result (Option ℕ)) → WithinIf k buffer r → Ends (after_extended buffer (some r))
  unfolding after_extended
  after_extended_total (err e) h = (err e, refl)
  after_extended_total (ok none) h = (ok need_more_bytes, refl)
  after_extended_total (ok (some m)) h = finish_total buffer k m found low h

  queries_total : Ends (after_queries buffer (query_end (suc (length buffer)) buffer k))
  queries_total =
      let (r, (done, within)) = query_end_total (suc (length buffer)) buffer k high (omega arith) in
      subst (λ o. Ends (after_queries buffer o)) (sym done) (after_queries_total r within)

  extended_total :
      (last : ℕ) → Ends (after_extended buffer (extended_end (suc (length buffer)) buffer last k))
  extended_total last =
      let (r, (done, within)) =
        extended_end_total (suc (length buffer)) buffer last k high (omega arith) in
      subst (λ o. Ends (after_extended buffer o)) (sym done) (after_extended_total r within)

  from_first_total : Ends (from_first buffer k)
  unfolding from_first
  from_first_total = elim (Bool-cases (tag_of buffer == frontend_byte FrontendTag.terminate)) [
    | inl t ↦ rw t (_, refl)
    | inr t ↦ elim (Bool-cases (is_query (tag_of buffer))) [
      | inl q ↦ rw (t, q) queries_total
      | inr q ↦ rw (t, q) (extended_total (tag_of buffer))
    ]
  ]

after_first_total :
    (buffer : Bytes) → Ends (after_first buffer (complete_frontend_frame_len buffer))
unfolding after_first
after_first_total buffer = elim (complete-IsLen buffer) [
  | inl (e, found) ↦ rw found (err e, refl)
  | inr (inl found) ↦ rw found (ok need_more_bytes, refl)
  | inr (inr (k, (found, (low, high)))) ↦ rw found (from_first_total buffer k found low high)
]

-- Whatever the buffer holds and whatever the limit, the reading of a cycle ends and does not panic.
pub take_frontend_cycle_bytes_total :
    (buffer : Bytes) (max_client_buffer_bytes : ℕ)
    → (c : Result FrontendCycleRead) × ((take_frontend_cycle_bytes buffer max_client_buffer_bytes).0
        ≡ some c)
unfolding take_frontend_cycle_bytes
take_frontend_cycle_bytes_total buffer max = elim (Bool-cases (ltb max (length buffer))) [
  | inl l ↦ rw l (ok buffer_limit_exceeded, refl)
  | inr l ↦ rw l (after_first_total buffer)
]
