-- ===== src/Sql/Separators/Rounds.antt =====
-- The loop over white space and comments of
-- crates/pg-kinetic-core/src/protocol/sql_classify.rs: its rounds, and that its fuel is enough.
use pg_kinetic.Prelude.{
  ℕ, zero, suc, ◌+◌, ◌≤◌, ◌<◌, ◌≡◌, refl, sym, ap, ◌∙◌, ◌⊎◌, inl, inr, some, [], ◌∷◌, arith, length,
  bytes_eq_iff, bytes_ne, Option-cases,
}
use pg_kinetic.Sql.Chars.{Text, trim_start, strip_prefix, split_once}
use pg_kinetic.Sql.Separators.{
  Round, again, done, after_line, line_mark, open_mark, close_mark, strip_comment, strip_round,
  strip_loop, strip_leading_comments_and_whitespace,
}

strip_prefix-le : (p s t : Text) → strip_prefix p s ≡ some t → length t + length p ≡ length s
unfolding strip_prefix
strip_prefix-le [] s t h = ground arith
strip_prefix-le (p ∷ ps) [] t h = ground arith
strip_prefix-le (p ∷ ps) (c ∷ cs) t h = ground (arith, strip_prefix-le ps cs t)

pub split_once-le :
    (p s : Text) (found : Text × Text)
    → split_once p s ≡ some found
    → length found.1 + length p ≤ length s
unfolding split_once
split_once-le p [] found h = elim (Option-cases (strip_prefix p [])) [
  | inl e ↦ ground arith
  | inr (t, e) ↦ ground (arith, strip_prefix-le p [] t e)
]
split_once-le p (c ∷ cs) found h = elim (Option-cases (strip_prefix p (c ∷ cs))) [
  | inr (t, e) ↦ ground (arith, strip_prefix-le p (c ∷ cs) t e)
  | inl e ↦ elim (Option-cases (split_once p cs)) [
    | inl n ↦ ground arith
    | inr (f, n) ↦ ground (arith, split_once-le p cs f n)
  ]
]

pub trim_start-le : (s : Text) → length (trim_start s) ≤ length s
unfolding trim_start
trim_start-le [] = omega arith
trim_start-le (c ∷ cs) = ground (arith, trim_start-le cs)

-- White space at the front is gone, or there was none.
pub trim_start-cases : (s : Text) → (trim_start s ≡ s) ⊎ (length (trim_start s) < length s)
unfolding trim_start
trim_start-cases [] = inl refl
trim_start-cases (c ∷ cs) = ground (arith, trim_start-le cs)

-- What `split_once` leaves behind a mark that is found, if it is found.
after_line-shorter :
    (p s t : Text) → after_line (split_once p s) ≡ again t → length t + length p ≤ length s
after_line-shorter p s t h = elim (Option-cases (split_once p s)) [
  | inl e ↦ ground arith
  | inr (found, e) ↦ ground (arith, split_once-le p s found e)
]

pub Round-cases : (r : Round) → ((t : Text) × (r ≡ again t)) ⊎ ((t : Text) × (r ≡ done t))
Round-cases (again t) = inl (t, refl)
Round-cases (done t) = inr (t, refl)

strip_comment-shorter : (s t : Text) → strip_comment s ≡ again t → length t < length s
unfolding strip_comment
strip_comment-shorter s t h = elim (Option-cases (strip_prefix line_mark s)) [
  | inr (a, e) ↦
      let below = strip_prefix-le line_mark s a e in
      let g : after_line (split_once (b'\n' ∷ []) a) ≡ again t = ground arith in
      omega (arith, below, after_line-shorter (b'\n' ∷ []) a t g)
  | inl e ↦ elim (Option-cases (strip_prefix open_mark s)) [
    | inr (a, e') ↦
        let below = strip_prefix-le open_mark s a e' in
        let g : after_line (split_once close_mark a) ≡ again t = ground arith in
        omega (arith, below, after_line-shorter close_mark a t g)
    | inl e' ↦ ground arith
  ]
]

pub strip_round_trims :
    (s : Text) → length (trim_start s) < length s → strip_round s ≡ again (trim_start s)
unfolding strip_round
strip_round_trims s shorter =
    rw (strip_round, bytes_ne (trim_start s) s (λ e. let l = ap length e in omega arith)) refl

pub strip_round_keeps : (s : Text) → trim_start s ≡ s → strip_round s ≡ strip_comment s
unfolding strip_round
strip_round_keeps s e = rw (strip_round, (bytes_eq_iff (trim_start s) s).1 e) refl

-- Every round that is followed by another shortens the text.
pub strip_round-shorter : (s t : Text) → strip_round s ≡ again t → length t < length s
unfolding strip_round
strip_round-shorter s t h = elim (trim_start-cases s) [
  | inl e ↦
      let same = (bytes_eq_iff (trim_start s) s).1 e in strip_comment-shorter s t (ground arith)
  | inr shorter ↦
      let g : again (trim_start s) ≡ again t = sym (strip_round_trims s shorter) ∙ h in ground arith
]

pub strip_loop_again :
    (f : ℕ) (s t : Text) → strip_round s ≡ again t → strip_loop (suc f) s ≡ strip_loop f t
unfolding strip_loop
strip_loop_again f s t e = rw (e, strip_loop) refl

pub strip_loop_done : (f : ℕ) (s t : Text) → strip_round s ≡ done t → strip_loop (suc f) s ≡ t
unfolding strip_loop
strip_loop_done f s t e = rw (e, strip_loop) refl

-- The loop gives the same text for every fuel above the length.
strip_loop_fuel :
    (f g : ℕ) (s : Text) → length s < f → length s < g → strip_loop f s ≡ strip_loop g s
strip_loop_fuel zero g s hf hg = absurd (omega arith)
strip_loop_fuel (suc f) zero s hf hg = absurd (omega arith)
strip_loop_fuel (suc f) (suc g) s hf hg = elim (Round-cases (strip_round s)) [
  | inl (t, e) ↦
      let below = strip_round-shorter s t e in
      strip_loop_again f s t e
      ∙ strip_loop_fuel f g t (omega arith) (omega arith)
      ∙ sym (strip_loop_again g s t e)
  | inr (t, e) ↦ strip_loop_done f s t e ∙ sym (strip_loop_done g s t e)
]

-- One round of the loop, on the text itself.
pub strip_again :
    (s t : Text)
    → strip_round s ≡ again t
    → strip_leading_comments_and_whitespace s ≡ strip_leading_comments_and_whitespace t
unfolding strip_leading_comments_and_whitespace
strip_again s t e =
    strip_loop_again (length s) s t e
    ∙ strip_loop_fuel (length s) (suc (length t)) t (strip_round-shorter s t e) (omega arith)

pub strip_done : (s t : Text) → strip_round s ≡ done t → strip_leading_comments_and_whitespace s ≡ t
unfolding strip_leading_comments_and_whitespace
strip_done s t e = strip_loop_done (length s) s t e
