-- ===== src/Cycle/Loops.antt =====
-- That the loops over the frames of a cycle end, and where
-- (crates/pg-kinetic-proxy/src/engine/io_runtime.rs).
use pg_kinetic.Prelude.{
  ℕ, zero, suc, ◌+◌, ◌-◌, ◌<◌, ◌≤◌, Bool-cases, Option, none, some, [], ◌∷◌, leb, length, drop,
  Bytes, ◌≡◌, refl, arith, ◌⊎◌, inl, inr, length-drop,
}
use pg_kinetic.Wire.Buffer.{i32_of, i32_ltb}
use pg_kinetic.Wire.Protocol.{Result, ok, err, WireError, invalid_frame_length}
use pg_kinetic.Wire.Frame.RoundTrip.{parse_header}
use pg_kinetic.Cycle.{
  is_query, is_extended_cycle_boundary, complete_frontend_frame_len, tag_of, query_end,
  extended_end,
}

-- An error, no length, or the length of a frame that is there.
abbrev pub IsLen : Bytes → Option (Result (Option ℕ)) → Type 0
IsLen bytes o =
    ((e : WireError) × (o ≡ some (err e)))
    ⊎ ((o ≡ some (ok none))
        ⊎ ((n : ℕ) × ((o ≡ some (ok (some n))) × ((5 ≤ n) × (n ≤ length bytes)))))

pub header-IsLen :
    (tag b1 b2 b3 b4 : ℕ) (body : Bytes)
    → let bytes = tag ∷ b1 ∷ b2 ∷ b3 ∷ b4 ∷ body in IsLen bytes (complete_frontend_frame_len bytes)
unfolding complete_frontend_frame_len
header-IsLen tag b1 b2 b3 b4 body = elim (Bool-cases (i32_ltb (i32_of b1 b2 b3 b4) 4)) [
  | inl e ↦
      inl (
        invalid_frame_length (i32_of b1 b2 b3 b4),
        ground (arith, parse_header tag b1 b2 b3 b4 body),
      )
  | inr e ↦ elim (Bool-cases (leb (1 + i32_of b1 b2 b3 b4) (length body + 5))) [
    | inl l ↦ inr (inr (1 + i32_of b1 b2 b3 b4, (ground arith, (ground arith, ground arith))))
    | inr l ↦ inr (inl (ground arith))
  ]
]

pub complete-IsLen : (bytes : Bytes) → IsLen bytes (complete_frontend_frame_len bytes)
unfolding complete_frontend_frame_len
complete-IsLen (tag ∷ b1 ∷ b2 ∷ b3 ∷ b4 ∷ body) = header-IsLen tag b1 b2 b3 b4 body
complete-IsLen [] = inr (inl refl)
complete-IsLen (_ ∷ []) = inr (inl refl)
complete-IsLen (_ ∷ _ ∷ []) = inr (inl refl)
complete-IsLen (_ ∷ _ ∷ _ ∷ []) = inr (inl refl)
complete-IsLen (_ ∷ _ ∷ _ ∷ _ ∷ []) = inr (inl refl)

-- Where a run that starts at `n` may end.
abbrev pub Within : ℕ → Bytes → Result ℕ → Type 0
Within n buffer (err e) = Unit
Within n buffer (ok m) = (n ≤ m) × (m ≤ length buffer)

pub Within-weaken :
    (n k : ℕ) (buffer : Bytes) (r : Result ℕ) → Within (n + k) buffer r → Within n buffer r
Within-weaken n k buffer (err e) h = tt
Within-weaken n k buffer (ok m) h = (omega arith, h.1)

pub query_end_total :
    (fuel : ℕ) (buffer : Bytes) (n : ℕ)
    → n ≤ length buffer
    → length buffer - n < fuel
    → (r : Result ℕ) × ((query_end fuel buffer n ≡ some r) × Within n buffer r)
unfolding query_end
query_end_total zero buffer n l h = absurd (omega arith)
query_end_total (suc fuel) buffer n l h = elim (complete-IsLen (drop n buffer)) [
  | inl (e, found) ↦ (err e, (ground (arith, found), tt))
  | inr (inl found) ↦ (ok n, (ground (arith, found), (omega arith, l)))
  | inr (inr (k, (found, bounds))) ↦ elim (Bool-cases (is_query (tag_of (drop n buffer)))) [
    | inr q ↦ (ok n, (ground (arith, found), (omega arith, l)))
    | inl q ↦
        let (r, (done, within)) =
          query_end_total fuel buffer (n + k) (omega (arith, length-drop n buffer))
            (omega (arith, length-drop n buffer)) in
        (r, (ground (arith, found, done), Within-weaken n k buffer r within))
  ]
]

abbrev pub WithinIf : ℕ → Bytes → Result (Option ℕ) → Type 0
WithinIf n buffer (ok (some m)) = (n ≤ m) × (m ≤ length buffer)
WithinIf n buffer r = Unit

pub WithinIf-weaken :
    (n k : ℕ) (buffer : Bytes) (r : Result (Option ℕ))
    → WithinIf (n + k) buffer r
    → WithinIf n buffer r
WithinIf-weaken n k buffer (err e) h = tt
WithinIf-weaken n k buffer (ok none) h = tt
WithinIf-weaken n k buffer (ok (some m)) h = (omega arith, h.1)

pub extended_end_total :
    (fuel : ℕ) (buffer : Bytes) (last n : ℕ)
    → n ≤ length buffer
    → length buffer - n < fuel
    → (r : Result (Option ℕ)) × ((extended_end fuel buffer last n ≡ some r) × WithinIf n buffer r)
unfolding extended_end
extended_end_total zero buffer last n l h = absurd (omega arith)
extended_end_total (suc fuel) buffer last n l h =
    elim (Bool-cases (is_extended_cycle_boundary last)) [
      | inl q ↦ (ok (some n), (ground (arith, q), (omega arith, l)))
      | inr q ↦ elim (complete-IsLen (drop n buffer)) [
        | inl (e, found) ↦ (err e, (ground (arith, q, found), tt))
        | inr (inl found) ↦ (ok none, (ground (arith, q, found), tt))
        | inr (inr (k, (found, bounds))) ↦
            let (r, (done, within)) =
              extended_end_total fuel buffer (tag_of (drop n buffer)) (n + k)
                (omega (arith, length-drop n buffer)) (omega (arith, length-drop n buffer)) in
            (r, (ground (arith, q, found, done), WithinIf-weaken n k buffer r within))
      ]
    ]
