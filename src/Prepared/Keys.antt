-- ===== src/Prepared/Keys.antt =====
-- The cache keys that the backends hold (crates/pg-kinetic-core/src/protocol/prepare.rs), and a bound
-- on them.
use pg_kinetic.Prelude.{
  ℕ, ◌<◌, ◌≤◌, Bool, false, Option, none, some, List, [], ◌∷◌, ◌==◌, All, subst, ◌≡◌, inl, inr,
  refl, arith, Bool-cases,
}
use pg_kinetic.Prelude.Tables.{get, erase}
use pg_kinetic.Routing.{ShardId}
use pg_kinetic.Prepared.{Held, holds, or_default, retain_without}

module _ {ℓ κ} {K : Type ℓ} {V : Type κ} (same : K → K → Bool) (P : V → Type 0) where
  pub All-erase :
      (k : K) (t : List (K × V)) → All (λ p. P p.1) t → All (λ p. P p.1) (erase same k t)
  unfolding erase
  All-erase k [] h = tt
  All-erase k ((j, v) ∷ t) h = elim (Bool-cases (same j k)) [
    | inl e ↦ rw e (All-erase k t h.1)
    | inr e ↦ rw e (h.0, All-erase k t h.1)
  ]

  pub All-get :
      (k : K) (v : V) (t : List (K × V)) → All (λ p. P p.1) t → get same k t ≡ some v → P v
  unfolding get
  All-get k v [] h e = ground (arith, e)
  All-get k v ((j, w) ∷ t) h e = elim (Bool-cases (same j k)) [
    | inl s ↦ subst P (ground (arith, e, s)) h.0
    | inr s ↦ All-get k v t h.1 (ground (arith, e, s))
  ]

-- All keys that a backend holds are below `n`.
abbrev pub IsBelow : ℕ → Held → Type 0
IsBelow n = All λ p. p.0 < n

abbrev pub AllBelow : ℕ → List (ℕ × Held) → Type 0
AllBelow n = All λ p. IsBelow n p.1

pub erase-IsBelow : (n k : ℕ) (held : Held) → IsBelow n held → IsBelow n (erase ◌==◌ k held)
unfolding erase
erase-IsBelow n k [] h = tt
erase-IsBelow n k ((j, v) ∷ held) h = ground (arith, h, erase-IsBelow n k held h.1)

pub retain_below : (n k : ℕ) (m : List (ℕ × Held)) → AllBelow n m → AllBelow n (retain_without k m)
unfolding retain_without
retain_below n k [] h = tt
retain_below n k ((b, held) ∷ m) h =
    keep (erase ◌==◌ k held) (erase-IsBelow n k held h.0) (retain_below n k m h.1)
  where
    keep :
        (left : Held)
        → IsBelow n left
        → AllBelow n (retain_without k m)
        → AllBelow n (elim left [
          | [] ↦ retain_without k m
          | p ∷ held' ↦ (b, p ∷ held') ∷ retain_without k m
        ])
    keep [] hl hr = hr
    keep (p ∷ held') hl hr = (hl, hr)

pub got-IsBelow :
    (n b : ℕ) (m : List (ℕ × Held)) → AllBelow n m → IsBelow n (or_default (get ◌==◌ b m))
unfolding get
got-IsBelow n b [] h = tt
got-IsBelow n b ((j, held) ∷ m) h = ground (arith, h, got-IsBelow n b m h.1)

-- A key that is not below `n` is held nowhere.
pub unheld :
    (n k b : ℕ) (shard : Option ShardId) (m : List (ℕ × Held))
    → AllBelow n m
    → n ≤ k
    → holds k shard (get ◌==◌ b m) ≡ false
unfolding get
unheld n k b shard [] h le = refl
unheld n k b shard ((j, held) ∷ m) h le =
    ground (arith, absent held h.0, unheld n k b shard m h.1 le)
  where
    absent : (held : Held) → IsBelow n held → get ◌==◌ k held ≡ none
    absent [] hb = refl
    absent ((i, v) ∷ held) hb = ground (arith, hb, absent held hb.1)

pub weaker_below : (n n' : ℕ) (m : List (ℕ × Held)) → n ≤ n' → AllBelow n m → AllBelow n' m
weaker_below n n' [] le h = tt
weaker_below n n' ((b, held) ∷ m) le h = (each held h.0, weaker_below n n' m le h.1)
  where
    each : (held : Held) → IsBelow n held → IsBelow n' held
    each [] hb = tt
    each (p ∷ held) hb = (omega (arith, hb), each held hb.1)
