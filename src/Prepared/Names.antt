-- ===== src/Prepared/Names.antt =====
-- The names under which a backend knows the statements
-- (crates/pg-kinetic-core/src/protocol/prepare.rs).
use pg_kinetic.Prelude.{
  ℕ, zero, suc, ◌+◌, ◌*◌, ◌-◌, ◌/◌, ◌%◌, ◌^◌, ◌<◌, [], ◌∷◌, ◌++◌, ◌≡◌, refl, sym, ap, ◌∙◌, arith,
  Bytes, codes,
}
use pg_kinetic.Prepared.{decimal, statement_name}

-- The number that a text of digits stands for, after the number `n` of those in front.
abbrev value_of : ℕ → Bytes → ℕ
value_of n [] = n
value_of n (b ∷ bs) = value_of (n * 10 + (b - 48)) bs

value_of-append : (n : ℕ) (xs ys : Bytes) → value_of n (xs ++ ys) ≡ value_of (value_of n xs) ys
value_of-append n [] ys = refl
value_of-append n (x ∷ xs) ys = value_of-append (n * 10 + (x - 48)) xs ys

value_of-decimal : (fuel n : ℕ) → n < 10 ^ fuel → value_of 0 (decimal fuel n) ≡ n
unfolding decimal
value_of-decimal zero n h = omega arith
value_of-decimal (suc fuel) n h = ground (
  arith,
  value_of-append 0 (decimal fuel (n / 10)) ((48 + n % 10) ∷ []),
  value_of-decimal fuel (n / 10),
)

-- The names of two statements of a session differ when their cache keys, both u64, do.
pub statement_name-injective :
    (session_id j k : ℕ)
    → j < 2 ^ 64
    → k < 2 ^ 64
    → statement_name session_id j ≡ statement_name session_id k
    → j ≡ k
unfolding statement_name
statement_name-injective session_id j k hj hk e =
    let digits = suffix (b'_' ∷ []) (suffix (decimal 20 session_id) (suffix (codes "pgk_") e)) in
    sym (value_of-decimal 20 j (omega arith))
    ∙ ap (value_of 0) digits
    ∙ value_of-decimal 20 k (omega arith)
  where
    suffix : {xs ys : Bytes} (p : Bytes) → p ++ xs ≡ p ++ ys → xs ≡ ys
    suffix [] e = e
    suffix (b ∷ p) e = suffix p (ground (arith, e))
