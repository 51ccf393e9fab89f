-- ===== src/Sql/Classify/Reads.antt =====
-- Which single statements `classify_single_statement` of
-- crates/pg-kinetic-core/src/protocol/sql_classify.rs gives to a replica.
use mathlib.Core.Bool.{true≢false}
use pg_kinetic.Prelude.{
  ℕ, zero, suc, ◌-◌, ◌≤◌, ◌<◌, ◌≡◌, refl, sym, ap, ◌∙◌, ◌↔◌, inl, inr, Bool, true, false, Option,
  none, some, [], ◌∷◌, ◌++◌, arith, length, drop, length-drop, codes, Option-cases, Bool-cases,
  if◌then◌else◌,
}
use pg_kinetic.Routing.{QueryClass, read_candidate, unknown, routes_to_replica}
use pg_kinetic.Sql.Chars.{Text, is_empty, starts_with, contains, normalize}
use pg_kinetic.Sql.Classify.{
  classify_unexplained, explained, classify_loop, classify_single_statement,
}
use pg_kinetic.Sql.Classify.Plain.{IsPlainRead, classify_unexplained_reads}
use pg_kinetic.Sql.Separators.Stripped.{strip-le}
use pg_kinetic.Sql.Separators.{strip_leading_comments_and_whitespace}
use pg_kinetic.Sql.Statements.{ScanState, normal, scan, depth_in, paren_from, find_matching_paren}
use pg_kinetic.Sql.Words.{keyword_is}

-- The rest of the text is shorter behind a parenthesis.
paren_from-lt :
    (taken : Bool) (state : ScanState) (depth : ℕ) (before s : Text) (found : Text × Text)
    → paren_from taken state depth before s ≡ some found
    → length found.1 < length s
unfolding paren_from
paren_from-lt taken state depth before [] found h = ground arith
paren_from-lt true state depth before (c ∷ cs) found h =
    omega (arith, paren_from-lt false state depth (before ++ c ∷ []) cs found h)
paren_from-lt false state depth before (c ∷ cs) found h =
    elim (Bool-cases (depth_in state c depth).1) [
      | inl e ↦ ground arith
      | inr e ↦
          let s = scan state c cs in
          let deeper = (depth_in state c depth).0 in
          let g : paren_from s.1 s.0 deeper (before ++ c ∷ []) cs ≡ some found = ground arith in
          omega (arith, paren_from-lt s.1 s.0 deeper (before ++ c ∷ []) cs found g)
    ]

find_matching_paren-lt :
    (s : Text) (found : Text × Text)
    → find_matching_paren s ≡ some found
    → length found.1 < length s
unfolding find_matching_paren
find_matching_paren-lt s found h = paren_from-lt false normal 0 [] s found h

explained_plain-le :
    (analyze : Bool) (n : ℕ) (rest t : Text)
    → elim analyze [ true ↦ none | false ↦ some rest ] ≡ some t
    → length rest ≤ n
    → length t ≤ n
explained_plain-le analyze n rest t h k = ground arith

-- The explained statement is shorter by the word `explain` at least.
explained-le : (sql t : Text) → explained sql ≡ some t → length t ≤ length sql - 7
unfolding explained
explained-le sql t h =
    let rest = strip_leading_comments_and_whitespace (drop 7 sql) in
    let short : length rest ≤ length sql - 7 =
      omega (arith, strip-le (drop 7 sql), length-drop 7 sql) in
    elim (Bool-cases (starts_with (codes "(") rest)) [
      | inr e ↦
          explained_plain-le (starts_with (codes "analyze") (normalize rest)) _ rest t
            (ground arith) short
      | inl e ↦ elim (Option-cases (find_matching_paren rest)) [
        | inl n ↦ ground arith
        | inr (found, n) ↦
            explained_plain-le (contains (codes "analyze") (normalize (drop 1 found.0))) _
              (strip_leading_comments_and_whitespace found.1) t (ground arith)
              (omega (arith, short, strip-le found.1, find_matching_paren-lt rest found n))
      ]
    ]

-- A single statement that goes to a replica: it only reads, or it is an `explain` that runs
-- nothing, in front of one that only reads.
pub data Reads : Text → Type 0 where
  plain :
      (text : Text)
      → is_empty (strip_leading_comments_and_whitespace text) ≡ false
      → keyword_is (strip_leading_comments_and_whitespace text) (codes "explain") ≡ false
      → IsPlainRead (strip_leading_comments_and_whitespace text)
      → Reads text
  explains :
      (text target : Text)
      → is_empty (strip_leading_comments_and_whitespace text) ≡ false
      → keyword_is (strip_leading_comments_and_whitespace text) (codes "explain") ≡ true
      → explained (strip_leading_comments_and_whitespace text) ≡ some target
      → Reads target
      → Reads text

is_not_empty-length : (s : Text) → is_empty s ≡ false → 1 ≤ length s
is_not_empty-length [] h = ground arith
is_not_empty-length (c ∷ cs) h = omega arith

module _ (f : ℕ) (text : Text) where
  abbrev s : Text
  s = strip_leading_comments_and_whitespace text

  classify_loop_empty : is_empty s ≡ true → classify_loop (suc f) text ≡ unknown
  unfolding classify_loop
  classify_loop_empty e = rw (classify_loop, e) refl

  classify_loop_plain :
      is_empty s ≡ false
      → keyword_is s (codes "explain") ≡ false
      → classify_loop (suc f) text ≡ classify_unexplained s
  unfolding classify_loop
  classify_loop_plain e k = rw (classify_loop, e, k) refl

  classify_loop_none :
      is_empty s ≡ false
      → keyword_is s (codes "explain") ≡ true
      → explained s ≡ none
      → classify_loop (suc f) text ≡ unknown
  unfolding classify_loop
  classify_loop_none e k n = rw (classify_loop, e, k, n) refl

  classify_loop-some :
      (t : Text)
      → is_empty s ≡ false
      → keyword_is s (codes "explain") ≡ true
      → explained s ≡ some t
      → classify_loop (suc f) text
        ≡ (if routes_to_replica (classify_loop f t) then read_candidate else unknown)
  unfolding classify_loop
  classify_loop-some t e k n = rw (classify_loop, e, k, n) refl

routes_if : (b : Bool) → routes_to_replica (if b then read_candidate else unknown) ≡ b
unfolding routes_to_replica
routes_if b = ground arith

pub Reads-not_empty :
    (text : Text) → Reads text → is_empty (strip_leading_comments_and_whitespace text) ≡ false
Reads-not_empty text (plain _ e _ _) = e
Reads-not_empty text (explains _ _ e _ _ _) = e

Reads-plain :
    (text : Text)
    → keyword_is (s 0 text) (codes "explain") ≡ false
    → Reads text
    → IsPlainRead (s 0 text)
Reads-plain text k (plain _ _ _ r) = r
Reads-plain text k (explains _ _ _ k' _ _) = absurd (true≢false (sym k' ∙ k))

Reads-target :
    (text : Text)
    → keyword_is (s 0 text) (codes "explain") ≡ true
    → Reads text
    → (t : Text) × ((explained (s 0 text) ≡ some t) × Reads t)
Reads-target text k (plain _ _ k' _) = absurd (true≢false (sym k ∙ k'))
Reads-target text k (explains _ t _ _ n r) = (t, (n, r))

unknown_reads : {c : QueryClass} → c ≡ unknown → ¬ (routes_to_replica c ≡ true)
unfolding routes_to_replica
unknown_reads e h = true≢false (sym h ∙ ap routes_to_replica e)

none≢some : {A : Type 0} {o : Option A} {a : A} → o ≡ none → ¬ (o ≡ some a)
none≢some e h = ground arith

some_unique : {o : Option Text} {a b : Text} → o ≡ some a → o ≡ some b → a ≡ b
some_unique h k = ground arith

classify_loop-Reads :
    (f : ℕ) (text : Text)
    → length text < f
    → (routes_to_replica (classify_loop f text) ≡ true) ↔ Reads text
classify_loop-Reads zero text h = absurd (omega arith)
classify_loop-Reads (suc f) text h = elim (Bool-cases (is_empty (s f text))) [
  | inl e ↦ (
    λ r. absurd (unknown_reads (classify_loop_empty f text e) r),
    λ r. absurd (true≢false (sym e ∙ Reads-not_empty text r)),
  )
  | inr e ↦ elim (Bool-cases (keyword_is (s f text) (codes "explain"))) [
    | inr k ↦
        let (to, from) = classify_unexplained_reads (s f text) in
        let same = ap routes_to_replica (classify_loop_plain f text e k) in
        (λ r. plain text e k (to (sym same ∙ r)), λ r. same ∙ from (Reads-plain text k r))
    | inl k ↦ elim (Option-cases (explained (s f text))) [
      | inl n ↦ (
        λ r. absurd (unknown_reads (classify_loop_none f text e k n) r),
        λ r. absurd (none≢some n (Reads-target text k r).1.0),
      )
      | inr (t, n) ↦
          let shorter : length t < f =
            omega (
              arith,
              explained-le (s f text) t n,
              strip-le text,
              is_not_empty-length (s f text) e,
            ) in
          let (to, from) = classify_loop-Reads f t shorter in
          let same =
            ap routes_to_replica (classify_loop-some f text t e k n)
            ∙ routes_if (routes_to_replica (classify_loop f t)) in
          (
            λ r. explains text t e k n (to (sym same ∙ r)),
            λ r.
                let (t', (n', r')) = Reads-target text k r in
                same ∙ from (rw (some_unique n n') r'),
          )
    ]
  ]
]

-- The class of a single statement is one for replicas exactly when it only reads, by its words, or
-- is an `explain` that runs nothing in front of one that does.
pub classify_single_statement-Reads :
    (sql : Text) → (routes_to_replica (classify_single_statement sql) ≡ true) ↔ Reads sql
unfolding classify_single_statement
classify_single_statement-Reads sql = classify_loop-Reads (suc (length sql)) sql (omega arith)
