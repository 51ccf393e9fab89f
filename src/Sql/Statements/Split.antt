-- ===== src/Sql/Statements/Split.antt =====
-- The statements that the scanner of crates/pg-kinetic-core/src/protocol/sql_classify.rs finds in
-- a text that is put together from well-formed ones.
use pg_kinetic.Prelude.{
  ◌≡◌, refl, ap, ◌∙◌, inl, inr, Bool-cases, Bool, true, false, List, [], ◌∷◌, ◌++◌, ℕ, ◌==◌,
  ==_refl, arith, append_assoc, append-nil,
}
use pg_kinetic.Sql.Chars.{Text}
use pg_kinetic.Sql.Separators.Skipped.{HasNoBreak, HasNoClose, no_close, last_star, any_byte, star}
use pg_kinetic.Sql.Separators.{line_mark, open_mark, close_mark}
use pg_kinetic.Sql.Statements.{
  normal, single_quote, double_quote, line_comment, block_comment, ScanState, peeks, scan,
  scan_quote, in_normal, scan_normal, statements_from,
}

abbrev pub escape_char : Bool → ℕ → Text → Text
escape_char true c rest = c ∷ c ∷ rest
escape_char false c rest = c ∷ rest

-- A text between quotes, in which each quote is written twice.
abbrev pub escape : ℕ → Text → Text
escape quote [] = []
escape quote (c ∷ cs) = escape_char (c == quote) c (escape quote cs)

abbrev Differs : ℕ → ℕ → Type 0
Differs a b = (a == b) ≡ false

-- A character that opens nothing and ends no statement.
abbrev IsPlain : ℕ → Type 0
IsPlain c = Differs c b'\'' × Differs c b'"' × Differs c b'-' × Differs c b'/' × Differs c b';'

-- A text that closes what it opens and has no `;` but in quotes and comments.
pub data Whole : Text → Type 0 where
  nothing : Whole []
  plain : (c : ℕ) {cs : Text} → IsPlain c → Whole cs → Whole (c ∷ cs)
  minus : {cs : Text} → peeks b'-' cs ≡ false → Whole cs → Whole (b'-' ∷ cs)
  slash : {cs : Text} → peeks b'*' cs ≡ false → Whole cs → Whole (b'/' ∷ cs)
  literal :
      (body : Text) {cs : Text}
      → peeks b'\'' cs ≡ false
      → Whole cs
      → Whole (b'\'' ∷ (escape b'\'' body ++ b'\'' ∷ cs))
  name :
      (body : Text) {cs : Text}
      → peeks b'"' cs ≡ false
      → Whole cs
      → Whole (b'"' ∷ (escape b'"' body ++ b'"' ∷ cs))
  line :
      (body : Text) {cs : Text}
      → HasNoBreak body
      → Whole cs
      → Whole (line_mark ++ (body ++ b'\n' ∷ cs))
  block :
      (body : Text) {cs : Text}
      → HasNoClose body
      → Whole cs
      → Whole (open_mark ++ (body ++ (close_mark ++ cs)))

-- What may follow a statement: nothing that would change the reading of its last character.
abbrev Boundary : Text → Type 0
Boundary rest =
    (peeks b'-' rest ≡ false)
    × (peeks b'*' rest ≡ false)
    × (peeks b'\'' rest ≡ false)
    × (peeks b'"' rest ≡ false)

abbrev at : ScanState → Text → Text → List Text
at = statements_from false

at-line :
    (body read rest : Text)
    → HasNoBreak body
    → at line_comment read (body ++ b'\n' ∷ rest) ≡ at normal (read ++ (body ++ b'\n' ∷ [])) rest
unfolding statements_from scan
at-line [] read rest h = refl
at-line (c ∷ cs) read rest (h, hs) =
    ground
      (arith, at-line cs (read ++ c ∷ []) rest hs, append_assoc read (c ∷ []) (cs ++ b'\n' ∷ []))

at-block :
    {body : Text} (read rest : Text)
    → HasNoClose body
    → at block_comment read (body ++ (close_mark ++ rest))
      ≡ at normal (read ++ (body ++ close_mark)) rest
unfolding statements_from scan
at-block read rest no_close = rw (append_assoc read (b'*' ∷ []) (b'/' ∷ [])) refl
at-block read rest last_star =
    ap (λ r. at normal r rest)
      (append_assoc (read ++ b'*' ∷ []) (b'*' ∷ []) (b'/' ∷ [])
        ∙ append_assoc read (b'*' ∷ []) (b'*' ∷ b'/' ∷ []))
at-block read rest (any_byte {c} {cs} h t) =
    ground (arith, at-block (read ++ c ∷ []) rest t, append_assoc read (c ∷ []) (cs ++ close_mark))
at-block read rest (star {c} {cs} h t) = ground (
  arith,
  at-block (read ++ b'*' ∷ []) rest t,
  append_assoc read (b'*' ∷ []) (c ∷ (cs ++ close_mark)),
)

-- The two states of quoting, with their quotes.
abbrev IsQuoting : ScanState → ℕ → Type 0
IsQuoting state quote =
    in_normal state ≡ false
    × ((c : ℕ) (rest : Text) → scan state c rest ≡ scan_quote state quote c rest)

module _ (state : ScanState) (quote : ℕ) (q : IsQuoting state quote) where
  at_char :
      (c : ℕ) (read rest : Text)
      → (c == quote) ≡ false
      → at state read (c ∷ rest) ≡ at state (read ++ c ∷ []) rest
  unfolding statements_from
  at_char c read rest h = rw (statements_from, q.0, q.1, h) refl

  at_double :
      (c : ℕ) (read rest : Text)
      → (c == quote) ≡ true
      → at state read (c ∷ c ∷ rest) ≡ at state ((read ++ c ∷ []) ++ c ∷ []) rest
  unfolding statements_from
  at_double c read rest h = rw (statements_from, q.0, q.1, h) refl

  at_close :
      (read rest : Text)
      → peeks quote rest ≡ false
      → at state read (quote ∷ rest) ≡ at normal (read ++ quote ∷ []) rest
  unfolding statements_from
  at_close read rest h = rw (statements_from, q.0, q.1, ==_refl quote, h) refl

  at-escape :
      (body read rest : Text)
      → peeks quote rest ≡ false
      → at state read (escape quote body ++ quote ∷ rest)
        ≡ at normal (read ++ (escape quote body ++ quote ∷ [])) rest
  at-escape [] read rest h = at_close read rest h
  at-escape (c ∷ cs) read rest h = elim (Bool-cases (c == quote)) [
    | inl e ↦ rw e (
        at_double c read (escape quote cs ++ quote ∷ rest) e
        ∙ at-escape cs ((read ++ c ∷ []) ++ c ∷ []) rest h
        ∙ ap (λ r. at normal r rest)
            (append_assoc (read ++ c ∷ []) (c ∷ []) (escape quote cs ++ quote ∷ [])
              ∙ append_assoc read (c ∷ []) (c ∷ (escape quote cs ++ quote ∷ []))))
    | inr e ↦ rw e (
        at_char c read (escape quote cs ++ quote ∷ rest) e
        ∙ at-escape cs (read ++ c ∷ []) rest h
        ∙ ap (λ r. at normal r rest) (append_assoc read (c ∷ []) (escape quote cs ++ quote ∷ [])))
  ]

at-literal : IsQuoting single_quote b'\''
unfolding scan
at-literal = (refl, λ c rest. refl)

at-name : IsQuoting double_quote b'"'
unfolding scan
at-name = (refl, λ c rest. refl)

peeks-append :
    (d : ℕ) (cs rest : Text)
    → peeks d cs ≡ false
    → peeks d rest ≡ false
    → peeks d (cs ++ rest) ≡ false
peeks-append d [] rest h k = k
peeks-append d (c ∷ cs) rest h k = h

-- One character that leaves the scanner in its first state.
at_plain :
    (c : ℕ) (read rest : Text)
    → scan normal c rest ≡ (normal, false)
    → Differs c b';'
    → at normal read (c ∷ rest) ≡ at normal (read ++ c ∷ []) rest
unfolding statements_from
at_plain c read rest h d = rw (statements_from, d, h) refl

scan_plain : (c : ℕ) (rest : Text) → IsPlain c → scan normal c rest ≡ (normal, false)
unfolding scan scan_normal
scan_plain c rest (a, d, e, f, g) = rw (scan, scan_normal, a, d, e, f) refl

regroup :
    (read mark body close cs : Text)
    → ((read ++ mark) ++ (body ++ close)) ++ cs ≡ read ++ (mark ++ (body ++ (close ++ cs)))
regroup read mark body close cs =
    append_assoc (read ++ mark) (body ++ close) cs
    ∙ append_assoc read mark ((body ++ close) ++ cs)
    ∙ ap (λ t. read ++ (mark ++ t)) (append_assoc body close cs)

-- The scanner is back in its first state behind a whole text, and has found no end.
pub at-Whole :
    {s : Text} (read rest : Text)
    → Whole s
    → Boundary rest
    → at normal read (s ++ rest) ≡ at normal (read ++ s) rest
unfolding statements_from scan scan_normal
at-Whole read rest nothing b = rw append-nil refl
at-Whole read rest (plain c {cs} p w) b =
    at_plain c read (cs ++ rest) (scan_plain c (cs ++ rest) p) (ground arith)
    ∙ at-Whole (read ++ c ∷ []) rest w b
    ∙ ap (λ r. at normal r rest) (append_assoc read (c ∷ []) cs)
at-Whole read rest (minus {cs} h w) b =
    at_plain b'-' read (cs ++ rest) (rw (peeks-append b'-' cs rest h b.0) refl) refl
    ∙ at-Whole (read ++ b'-' ∷ []) rest w b
    ∙ ap (λ r. at normal r rest) (append_assoc read (b'-' ∷ []) cs)
at-Whole read rest (slash {cs} h w) b =
    at_plain b'/' read (cs ++ rest) (rw (peeks-append b'*' cs rest h b.1) refl) refl
    ∙ at-Whole (read ++ b'/' ∷ []) rest w b
    ∙ ap (λ r. at normal r rest) (append_assoc read (b'/' ∷ []) cs)
at-Whole read rest (literal body {cs} h w) b =
    ap (at single_quote (read ++ b'\'' ∷ [])) (append_assoc (escape b'\'' body) (b'\'' ∷ cs) rest)
    ∙ at-escape single_quote b'\'' at-literal body (read ++ b'\'' ∷ []) (cs ++ rest)
        (peeks-append b'\'' cs rest h b.2)
    ∙ at-Whole ((read ++ b'\'' ∷ []) ++ (escape b'\'' body ++ b'\'' ∷ [])) rest w b
    ∙ ap (λ r. at normal r rest) (regroup read (b'\'' ∷ []) (escape b'\'' body) (b'\'' ∷ []) cs)
at-Whole read rest (name body {cs} h w) b =
    ap (at double_quote (read ++ b'"' ∷ [])) (append_assoc (escape b'"' body) (b'"' ∷ cs) rest)
    ∙ at-escape double_quote b'"' at-name body (read ++ b'"' ∷ []) (cs ++ rest)
        (peeks-append b'"' cs rest h b.3)
    ∙ at-Whole ((read ++ b'"' ∷ []) ++ (escape b'"' body ++ b'"' ∷ [])) rest w b
    ∙ ap (λ r. at normal r rest) (regroup read (b'"' ∷ []) (escape b'"' body) (b'"' ∷ []) cs)
at-Whole read rest (line body {cs} h w) b =
    ap (at line_comment ((read ++ b'-' ∷ []) ++ b'-' ∷ [])) (append_assoc body (b'\n' ∷ cs) rest)
    ∙ ap (λ r. at line_comment r (body ++ b'\n' ∷ (cs ++ rest)))
        (append_assoc read (b'-' ∷ []) (b'-' ∷ []))
    ∙ at-line body (read ++ line_mark) (cs ++ rest) h
    ∙ at-Whole ((read ++ line_mark) ++ (body ++ b'\n' ∷ [])) rest w b
    ∙ ap (λ r. at normal r rest) (regroup read line_mark body (b'\n' ∷ []) cs)
at-Whole read rest (block body {cs} h w) b =
    ap (at block_comment ((read ++ b'/' ∷ []) ++ b'*' ∷ []))
      (append_assoc body (close_mark ++ cs) rest)
    ∙ ap (λ r. at block_comment r (body ++ (close_mark ++ (cs ++ rest))))
        (append_assoc read (b'/' ∷ []) (b'*' ∷ []))
    ∙ at-block (read ++ open_mark) (cs ++ rest) h
    ∙ at-Whole ((read ++ open_mark) ++ (body ++ close_mark)) rest w b
    ∙ ap (λ r. at normal r rest) (regroup read open_mark body close_mark cs)
