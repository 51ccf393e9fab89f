-- ===== src/Sql/Separators/Stripped.antt =====
-- Where the loop over white space and comments of
-- crates/pg-kinetic-core/src/protocol/sql_classify.rs stops.
use pg_kinetic.Prelude.{
  ℕ, zero, suc, ◌≤◌, ◌<◌, ◌≡◌, refl, ap, ◌⊎◌, inl, inr, false, Option, none, some, [], ◌∷◌, arith,
  length, bytes_eq_iff, Option-cases,
}
use pg_kinetic.Sql.Chars.{Text, trim_start, strip_prefix, starts_with, split_once}
use pg_kinetic.Sql.Separators.{
  done, after_line, line_mark, open_mark, close_mark, strip_comment, strip_round, strip_loop,
  strip_leading_comments_and_whitespace, starts_with_token_separator,
}
use pg_kinetic.Sql.Separators.Rounds.{
  trim_start-le, Round-cases, strip_round-shorter, strip_loop_again, strip_loop_done, strip_done,
}

-- A text that the loop returns: nothing is left to strip, since a comment with no end leaves none.
abbrev pub IsStripped : Text → Type 0
IsStripped s = strip_round s ≡ done s

after_line-done : (o : Option (Text × Text)) (t : Text) → after_line o ≡ done t → t ≡ []
after_line-done none t h = ground arith
after_line-done (some found) t h = ground arith

strip_comment_done : (s t : Text) → strip_comment s ≡ done t → (t ≡ s) ⊎ (t ≡ [])
unfolding strip_comment
strip_comment_done s t h = elim (Option-cases (strip_prefix line_mark s)) [
  | inr (a, e) ↦ inr (after_line-done (split_once (b'\n' ∷ []) a) t (ground arith))
  | inl e ↦ elim (Option-cases (strip_prefix open_mark s)) [
    | inr (a, e') ↦ inr (after_line-done (split_once close_mark a) t (ground arith))
    | inl e' ↦ inl (ground arith)
  ]
]

strip_round_comment : (s t : Text) → strip_round s ≡ done t → strip_comment s ≡ done t
unfolding strip_round
strip_round_comment s t h = ground arith

strip_round_done-le : (s t : Text) → strip_round s ≡ done t → length t ≤ length s
strip_round_done-le s t h = elim (strip_comment_done s t (strip_round_comment s t h)) [
  | inl e ↦ rw e (omega arith)
  | inr e ↦ rw e (omega arith)
]

strip_round_done : (s t : Text) → strip_round s ≡ done t → IsStripped t
unfolding strip_round
strip_round_done s t h = elim (strip_comment_done s t (strip_round_comment s t h)) [
  | inl e ↦ rw (← e) at h
  | inr e ↦ rw e refl
]

pub strip_loop-IsStripped : (f : ℕ) (s : Text) → length s < f → IsStripped (strip_loop f s)
strip_loop-IsStripped zero s h = absurd (omega arith)
strip_loop-IsStripped (suc f) s h = elim (Round-cases (strip_round s)) [
  | inl (t, e) ↦
      let below = strip_round-shorter s t e in
      rw (strip_loop_again f s t e) (strip_loop-IsStripped f t (omega arith))
  | inr (t, e) ↦ rw (strip_loop_done f s t e) (strip_round_done s t e)
]

strip-IsStripped : (sql : Text) → IsStripped (strip_leading_comments_and_whitespace sql)
unfolding strip_leading_comments_and_whitespace
strip-IsStripped sql = strip_loop-IsStripped (suc (length sql)) sql (omega arith)

starts_with-none : (p s : Text) → strip_prefix p s ≡ none → starts_with p s ≡ false
unfolding strip_prefix starts_with
starts_with-none [] s h = ground arith
starts_with-none (p ∷ ps) [] h = refl
starts_with-none (p ∷ ps) (c ∷ cs) h = ground (arith, starts_with-none ps cs)

IsStripped-trim_start : (s : Text) → IsStripped s → trim_start s ≡ s
unfolding strip_round
IsStripped-trim_start s h = ground (arith, bytes_eq_iff (trim_start s) s)

IsStripped-no_mark :
    (c : ℕ) (cs : Text)
    → strip_comment (c ∷ cs) ≡ done (c ∷ cs)
    → (strip_prefix line_mark (c ∷ cs) ≡ none) × (strip_prefix open_mark (c ∷ cs) ≡ none)
unfolding strip_comment
IsStripped-no_mark c cs h = elim (Option-cases (strip_prefix line_mark (c ∷ cs))) [
  | inr (a, e) ↦
      let gone = after_line-done (split_once (b'\n' ∷ []) a) (c ∷ cs) (ground arith) in ground arith
  | inl e ↦ elim (Option-cases (strip_prefix open_mark (c ∷ cs))) [
    | inr (a, e') ↦
        let gone = after_line-done (split_once close_mark a) (c ∷ cs) (ground arith) in ground arith
    | inl e' ↦ (e, e')
  ]
]

IsStripped-starts : (s : Text) → IsStripped s → starts_with_token_separator s ≡ false
unfolding starts_with_token_separator trim_start
IsStripped-starts [] h = refl
IsStripped-starts (c ∷ cs) h =
    let (a, b) = IsStripped-no_mark c cs (strip_round_comment (c ∷ cs) (c ∷ cs) h) in
    let t = ap length (IsStripped-trim_start (c ∷ cs) h) in
    ground (
      arith,
      starts_with-none line_mark (c ∷ cs) a,
      starts_with-none open_mark (c ∷ cs) b,
      trim_start-le cs,
      t,
    )

strip_loop-le : (f : ℕ) (s : Text) → length (strip_loop f s) ≤ length s
unfolding strip_loop
strip_loop-le zero s = omega arith
strip_loop-le (suc f) s = elim (Round-cases (strip_round s)) [
  | inl (t, e) ↦
      rw (strip_loop_again f s t e) (omega (arith, strip_loop-le f t, strip_round-shorter s t e))
  | inr (t, e) ↦ rw (strip_loop_done f s t e) (strip_round_done-le s t e)
]

-- What is returned starts with no white space and with no comment.
pub strip_starts_no_separator :
    (sql : Text) → starts_with_token_separator (strip_leading_comments_and_whitespace sql) ≡ false
strip_starts_no_separator sql = IsStripped-starts _ (strip-IsStripped sql)

-- Stripping twice is stripping once.
pub strip-strip :
    (sql : Text)
    → strip_leading_comments_and_whitespace (strip_leading_comments_and_whitespace sql)
      ≡ strip_leading_comments_and_whitespace sql
strip-strip sql = strip_done _ _ (strip-IsStripped sql)

pub strip-le : (sql : Text) → length (strip_leading_comments_and_whitespace sql) ≤ length sql
unfolding strip_leading_comments_and_whitespace
strip-le sql = strip_loop-le (suc (length sql)) sql
