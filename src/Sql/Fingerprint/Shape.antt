-- ===== src/Sql/Fingerprint/Shape.antt =====
-- What a fingerprint of crates/pg-kinetic-core/src/fingerprint.rs depends on, and how long it is.
use pg_kinetic.Prelude.{
  ℕ, ◌-◌, ◌≤◌, ◌<◌, ◌≡◌, refl, sym, ap, ◌∙◌, inl, inr, some, List, [], ◌∷◌, arith, leb, Bool-cases,
  Option-cases,
}
use pg_kinetic.Sql.Chars.{Text}
use pg_kinetic.Sql.Fingerprint.{
  max_fingerprint_bytes, len_utf8, len, truncate, Fingerprint, fingerprint_step, fingerprint_tokens,
  initial, fingerprint_sql,
}
use pg_kinetic.Sql.Tokens.{SqlToken, comment, literal, word, symbol, tokenize_sql}

-- The tokens that are not comments.
abbrev pub shape : List SqlToken → List SqlToken
shape [] = []
shape (comment ∷ ts) = shape ts
shape (t ∷ ts) = t ∷ shape ts

fingerprint_tokens_more :
    (f : Fingerprint) (t : SqlToken) (ts us : List SqlToken)
    → (len (fingerprint_step f t).output < max_fingerprint_bytes
        → fingerprint_tokens (fingerprint_step f t) ts
          ≡ fingerprint_tokens (fingerprint_step f t) us)
    → fingerprint_tokens f (t ∷ ts) ≡ fingerprint_tokens f (t ∷ us)
unfolding fingerprint_tokens
fingerprint_tokens_more f t ts us h =
    elim (Bool-cases (leb max_fingerprint_bytes (len (fingerprint_step f t).output))) [
      | inl e ↦ rw (fingerprint_tokens, e) refl
      | inr e ↦ rw (fingerprint_tokens, e) (h (ground arith))
    ]

fingerprint_tokens-comment :
    (f : Fingerprint) (ts : List SqlToken)
    → len f.output < max_fingerprint_bytes
    → fingerprint_tokens f (comment ∷ ts) ≡ fingerprint_tokens f ts
unfolding fingerprint_tokens
fingerprint_tokens-comment f ts h = ground arith

fingerprint_tokens-shape :
    (f : Fingerprint) (ts : List SqlToken)
    → len f.output < max_fingerprint_bytes
    → fingerprint_tokens f ts ≡ fingerprint_tokens f (shape ts)
fingerprint_tokens-shape f [] h = refl
fingerprint_tokens-shape f (comment ∷ ts) h =
    fingerprint_tokens-comment f ts h ∙ fingerprint_tokens-shape f ts h
fingerprint_tokens-shape f (literal ∷ ts) h =
    fingerprint_tokens_more f literal ts (shape ts)
      (fingerprint_tokens-shape (fingerprint_step f literal) ts)
fingerprint_tokens-shape f (word w ∷ ts) h =
    fingerprint_tokens_more f (word w) ts (shape ts)
      (fingerprint_tokens-shape (fingerprint_step f (word w)) ts)
fingerprint_tokens-shape f (symbol s ∷ ts) h =
    fingerprint_tokens_more f (symbol s) ts (shape ts)
      (fingerprint_tokens-shape (fingerprint_step f (symbol s)) ts)

-- Two texts whose tokens differ in comments and in the values of literals only have the same
-- fingerprint.
pub fingerprint_sql-shape :
    (a b : Text)
    → shape (tokenize_sql a) ≡ shape (tokenize_sql b)
    → fingerprint_sql a ≡ fingerprint_sql b
unfolding fingerprint_sql len
fingerprint_sql-shape a b h =
    fingerprint_tokens-shape initial (tokenize_sql a) (omega arith)
    ∙ ap (fingerprint_tokens initial) h
    ∙ sym (fingerprint_tokens-shape initial (tokenize_sql b) (omega arith))

truncate-le : (n : ℕ) (s kept : Text) → truncate n s ≡ some kept → len kept ≤ n
unfolding truncate len
truncate-le n [] kept h = ground arith
truncate-le n (c ∷ cs) kept h = elim (Bool-cases (leb (len_utf8 c) n)) [
  | inr e ↦ ground arith
  | inl e ↦ elim (Option-cases (truncate (n - len_utf8 c) cs)) [
    | inl t ↦ ground arith
    | inr (rest, t) ↦ ground (arith, truncate-le (n - len_utf8 c) cs rest t)
  ]
]

fingerprint_tokens-le :
    (f : Fingerprint) (ts : List SqlToken) (s : Text)
    → len f.output ≤ max_fingerprint_bytes
    → fingerprint_tokens f ts ≡ some s
    → len s ≤ max_fingerprint_bytes
unfolding fingerprint_tokens
fingerprint_tokens-le f [] s b h = ground arith
fingerprint_tokens-le f (t ∷ ts) s b h =
    elim (Bool-cases (leb max_fingerprint_bytes (len (fingerprint_step f t).output))) [
      | inl e ↦ truncate-le max_fingerprint_bytes (fingerprint_step f t).output s (ground arith)
      | inr e ↦ fingerprint_tokens-le (fingerprint_step f t) ts s (ground arith) (ground arith)
    ]

-- A fingerprint has at most 256 bytes.
pub fingerprint_sql-bounded :
    (sql s : Text) → fingerprint_sql sql ≡ some s → len s ≤ max_fingerprint_bytes
unfolding fingerprint_sql len
fingerprint_sql-bounded sql s = fingerprint_tokens-le initial (tokenize_sql sql) s (omega arith)
