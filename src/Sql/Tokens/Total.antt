-- ===== src/Sql/Tokens/Total.antt =====
-- The tokenizer of crates/pg-kinetic-core/src/protocol/sql_classify.rs reaches the end of its text.
use pg_kinetic.Prelude.{
  ℕ, zero, suc, ◌≤◌, ◌≡◌, refl, ap, inl, inr, Bool, true, false, Option, none, some, List, [], ◌∷◌,
  ◌++◌, arith, drop, length, length-drop, Bool-cases, Option-cases,
}
use pg_kinetic.Sql.Chars.{Text, split_once}
use pg_kinetic.Sql.Separators.Rounds.{split_once-le}
use pg_kinetic.Sql.Separators.{close_mark}
use pg_kinetic.Sql.Tokens.{
  SqlToken, comment, literal, in_number, in_word, Lexed, blank, token, stop, after, after_quote,
  span, after_dollar, lex_word, lex, tokens_loop, tokenize_sql,
}

-- What the iterator has left, if the loop goes on, is no longer than `n`.
abbrev LeavesAtMost : ℕ → Lexed → Type 0
LeavesAtMost n (blank rest) = length rest ≤ n
LeavesAtMost n (token t rest) = length rest ≤ n
LeavesAtMost n stop = Unit

after-le : (p s : Text) → length (after (split_once p s)) ≤ length s
after-le p s = elim (Option-cases (split_once p s)) [
  | inl e ↦ rw e (omega arith)
  | inr (found, e) ↦ rw e (omega (arith, split_once-le p s found e))
]

after_quote-le :
    (taken : Bool) (quote : ℕ) (s : Text) → length (after_quote taken quote s) ≤ length s
unfolding after_quote
after_quote-le taken quote [] = ground arith
after_quote-le true quote (c ∷ cs) = omega (arith, after_quote-le false quote cs)
after_quote-le false quote (c ∷ cs) =
    ground (arith, after_quote-le false quote cs, after_quote-le true quote cs)

span-le : (belongs : ℕ → Bool) (s : Text) → length (span belongs s).1 ≤ length s
unfolding span
span-le belongs [] = omega arith
span-le belongs (c ∷ cs) = elim (Bool-cases (belongs c)) [
  | inl e ↦ rw (span, e) (omega (arith, span-le belongs cs))
  | inr e ↦ rw (span, e) (omega arith)
]

after_dollar-le : (s t : Text) → after_dollar s ≡ some t → length t ≤ length s
unfolding after_dollar
after_dollar-le s t h = elim (Option-cases (split_once (b'$' ∷ []) s)) [
  | inl e ↦ ground arith
  | inr (tag, e) ↦
      let delimiter = b'$' ∷ (tag.0 ++ b'$' ∷ []) in
      elim (Option-cases (split_once delimiter tag.1)) [
        | inl n ↦ ground arith
        | inr (body, n) ↦
            let far = split_once-le (b'$' ∷ []) s tag e in
            let near = split_once-le delimiter tag.1 body n in
            let same : body.1 ≡ t = ground arith in rw (← same) (omega (arith, far, near))
      ]
]

lex_word-leaves : (c : ℕ) (cs : Text) → LeavesAtMost (length cs) (lex_word c cs)
unfolding lex_word
lex_word-leaves c cs = ground (arith, span-le in_word cs, span-le in_number cs)

comment-leaves :
    (n : ℕ) (o : Option (Text × Text))
    → ((found : Text × Text) → o ≡ some found → length found.1 ≤ n)
    → LeavesAtMost n (elim o [ none ↦ stop | some found ↦ token comment found.1 ])
comment-leaves n none h = tt
comment-leaves n (some found) h = h found refl

dollar-leaves :
    (n : ℕ) (other : Lexed) (o : Option Text)
    → LeavesAtMost n other
    → ((rest : Text) → o ≡ some rest → length rest ≤ n)
    → LeavesAtMost n (elim o [ none ↦ other | some rest ↦ token literal rest ])
dollar-leaves n other none k h = k
dollar-leaves n other (some rest) k h = h rest refl

lex-leaves : (c : ℕ) (cs : Text) → LeavesAtMost (length cs) (lex c cs)
unfolding lex
lex-leaves c cs =
    let dropped : length (drop 1 cs) ≤ length cs = omega (arith, length-drop 1 cs) in
    let line : length (after (split_once (b'\n' ∷ []) (drop 1 cs))) ≤ length cs =
      omega (arith, dropped, after-le (b'\n' ∷ []) (drop 1 cs)) in
    let plain = lex_word-leaves c cs in
    let closed =
      comment-leaves (length cs) (split_once close_mark (drop 1 cs))
        (λ found e. omega (arith, dropped, split_once-le close_mark (drop 1 cs) found e)) in
    let dollar = dollar-leaves (length cs) _ (after_dollar cs) plain (after_dollar-le cs) in
    ground (arith, line, closed, after_quote-le false c cs, dollar, plain)

tokens_step :
    (later other : Text → List SqlToken) (n : ℕ) (l : Lexed)
    → LeavesAtMost n l
    → ((rest : Text) → length rest ≤ n → later rest ≡ other rest)
    → elim l [ blank rest ↦ later rest | token t rest ↦ t ∷ later rest | stop ↦ [] ]
      ≡ elim l [ blank rest ↦ other rest | token t rest ↦ t ∷ other rest | stop ↦ [] ]
tokens_step later other n (blank rest) h k = k rest h
tokens_step later other n (token t rest) h k = ap (◌∷◌ t) (k rest h)
tokens_step later other n stop h k = refl

tokens_loop_fuel :
    (f g : ℕ) (s : Text) → length s ≤ f → length s ≤ g → tokens_loop f s ≡ tokens_loop g s
unfolding tokens_loop
tokens_loop_fuel f g [] hf hg = refl
tokens_loop_fuel zero g (c ∷ cs) hf hg = absurd (omega arith)
tokens_loop_fuel (suc f) zero (c ∷ cs) hf hg = absurd (omega arith)
tokens_loop_fuel (suc f) (suc g) (c ∷ cs) hf hg =
    tokens_step (tokens_loop f) (tokens_loop g) (length cs) (lex c cs) (lex-leaves c cs)
      (λ rest h. tokens_loop_fuel f g rest (omega arith) (omega arith))

-- The tokens are those that one round gives, with the tokens of what it leaves, to the end of the
-- text.
pub tokenize_sql-cons :
    (c : ℕ) (cs : Text)
    → tokenize_sql (c ∷ cs) ≡ elim (lex c cs) [
      | blank rest ↦ tokenize_sql rest
      | token t rest ↦ t ∷ tokenize_sql rest
      | stop ↦ []
    ]
unfolding tokenize_sql tokens_loop
tokenize_sql-cons c cs =
    tokens_step (tokens_loop (length cs)) tokenize_sql (length cs) (lex c cs) (lex-leaves c cs)
      (λ rest h. tokens_loop_fuel (length cs) (length rest) rest h (omega arith))
