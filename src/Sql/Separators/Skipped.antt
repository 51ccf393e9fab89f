-- ===== src/Sql/Separators/Skipped.antt =====
-- The texts that the loop of crates/pg-kinetic-core/src/protocol/sql_classify.rs skips, described
-- by a grammar.
use pg_kinetic.Prelude.{
  ℕ, ◌≡◌, refl, sym, ap, ◌∙◌, inl, inr, true, false, some, [], ◌∷◌, ◌++◌, arith, ◌==◌, All,
  append_assoc,
}
use pg_kinetic.Sql.Chars.{Text, is_whitespace, trim_start, strip_prefix, split_once}
use pg_kinetic.Sql.Separators.{
  line_mark, open_mark, close_mark, strip_comment, strip_round,
  strip_leading_comments_and_whitespace,
}
use pg_kinetic.Sql.Separators.Rounds.{
  strip_again, trim_start-cases, strip_round_trims, strip_round_keeps,
}

-- A text with no line break, and a text in which no comment ends.
abbrev pub HasNoBreak : Text → Type 0
HasNoBreak = All (λ c. (c == b'\n') ≡ false)

pub data HasNoClose : Text → Type 0 where
  no_close : HasNoClose []
  last_star : HasNoClose (b'*' ∷ [])
  any_byte : {c : ℕ} {cs : Text} → (c == b'*') ≡ false → HasNoClose cs → HasNoClose (c ∷ cs)
  star :
      {c : ℕ} {cs : Text} → (c == b'/') ≡ false → HasNoClose (c ∷ cs) → HasNoClose (b'*' ∷ c ∷ cs)

-- White space, comments up to the end of their line, and closed comments, one after the other.
pub data Separators : Text → Type 0 where
  nothing : Separators []
  blank : {c : ℕ} {cs : Text} → is_whitespace c ≡ true → Separators cs → Separators (c ∷ cs)
  line :
      (body : Text) {cs : Text}
      → HasNoBreak body
      → Separators cs
      → Separators (line_mark ++ (body ++ b'\n' ∷ cs))
  block :
      (body : Text) {cs : Text}
      → HasNoClose body
      → Separators cs
      → Separators (open_mark ++ (body ++ (close_mark ++ cs)))

split_once-break :
    (body s : Text) → HasNoBreak body → split_once (b'\n' ∷ []) (body ++ b'\n' ∷ s) ≡ some (body, s)
unfolding split_once strip_prefix
split_once-break [] s h = refl
split_once-break (c ∷ cs) s (h, hs) = ground (arith, split_once-break cs s hs)

split_once-close :
    {body : Text} (s : Text)
    → HasNoClose body
    → split_once close_mark (body ++ (close_mark ++ s)) ≡ some (body, s)
unfolding split_once strip_prefix
split_once-close s no_close = refl
split_once-close s last_star = refl
split_once-close s (any_byte {c} {cs} h rest) = ground (arith, split_once-close s rest)
split_once-close s (star {c} {cs} h rest) = ground (arith, split_once-close s rest)

strip-trim_start :
    (s : Text)
    → strip_leading_comments_and_whitespace (trim_start s) ≡ strip_leading_comments_and_whitespace s
strip-trim_start s = elim (trim_start-cases s) [
  | inl e ↦ ap strip_leading_comments_and_whitespace e
  | inr shorter ↦ sym (strip_again s (trim_start s) (strip_round_trims s shorter))
]

strip_blank :
    (c : ℕ) (s : Text)
    → is_whitespace c ≡ true
    → strip_leading_comments_and_whitespace (c ∷ s) ≡ strip_leading_comments_and_whitespace s
unfolding trim_start
strip_blank c s h =
    let e : trim_start (c ∷ s) ≡ trim_start s = ground arith in
    sym (strip-trim_start (c ∷ s)) ∙ ap strip_leading_comments_and_whitespace e ∙ strip-trim_start s

strip_line :
    (body s : Text)
    → HasNoBreak body
    → strip_leading_comments_and_whitespace (line_mark ++ (body ++ b'\n' ∷ s))
      ≡ strip_leading_comments_and_whitespace s
unfolding strip_round strip_comment trim_start
strip_line body s h = strip_again (line_mark ++ (body ++ b'\n' ∷ s)) s (
    strip_round_keeps (line_mark ++ (body ++ b'\n' ∷ s)) refl ∙ rw (split_once-break body s h) refl)

strip_block :
    (body s : Text)
    → HasNoClose body
    → strip_leading_comments_and_whitespace (open_mark ++ (body ++ (close_mark ++ s)))
      ≡ strip_leading_comments_and_whitespace s
unfolding strip_round strip_comment trim_start
strip_block body s h = strip_again (open_mark ++ (body ++ (close_mark ++ s))) s (
    strip_round_keeps (open_mark ++ (body ++ (close_mark ++ s))) refl
    ∙ rw (split_once-close s h) refl)

-- White space and comments before a text are skipped, whatever follows them.
pub strip-append :
    {pre : Text} (s : Text)
    → Separators pre
    → strip_leading_comments_and_whitespace (pre ++ s) ≡ strip_leading_comments_and_whitespace s
strip-append s nothing = refl
strip-append s (blank {c} {cs} h rest) = strip_blank c (cs ++ s) h ∙ strip-append s rest
strip-append s (line body {cs} h rest) =
    ap (λ t. strip_leading_comments_and_whitespace (line_mark ++ t))
      (append_assoc body (b'\n' ∷ cs) s)
    ∙ strip_line body (cs ++ s) h
    ∙ strip-append s rest
strip-append s (block body {cs} h rest) =
    ap (λ t. strip_leading_comments_and_whitespace (open_mark ++ t))
      (append_assoc body (close_mark ++ cs) s)
    ∙ strip_block body (cs ++ s) h
    ∙ strip-append s rest
