-- ===== src/Routing/Planner/Candidates.antt =====
-- The replica that crates/pg-kinetic-proxy/src/routing.rs picks among the candidates.
use pg_kinetic.Lsn.{PgLsn}
use pg_kinetic.Prelude.{
  ℕ, ◌≤◌, ◌≡◌, refl, ◌↔◌, ◌⊎◌, inl, inr, Bool, true, false, ◌&&◌, ◌||◌, not, Option, none, some,
  List, [], ◌∷◌, arith, All, ltb, leb, ◌==◌, Bool-cases,
}
use pg_kinetic.Routing.Modes.{FreshnessPolicy}
use pg_kinetic.Routing.Planner.{
  ReplicaCandidate, requires_session_write_lsn, requires_replica_lag, satisfies_lsn, satisfies_lag,
  replica_satisfies_freshness, is_safe, lag_or_max, key_leb, least, select_safe_replica,
}
use pg_kinetic.Session.Virtual.{ReadAfterWriteState, disabled, required}

-- A replica that has replayed what the session has written.
abbrev pub ReadsOwnWrites : ReadAfterWriteState → Option PgLsn → Type 0
ReadsOwnWrites disabled replay = Unit
ReadsOwnWrites ReadAfterWriteState.unknown replay = ⊥
ReadsOwnWrites (required lsn) replay = (p : PgLsn) × ((replay ≡ some p) × (lsn ≤ p))

abbrev pub IsNotLate : ℕ → Option ℕ → Type 0
IsNotLate max lag = (l : ℕ) × ((lag ≡ some l) × (l ≤ max))

abbrev pub IsFresh : ReplicaCandidate → FreshnessPolicy → ReadAfterWriteState → ℕ → Type 0
IsFresh c policy state max =
    ((requires_session_write_lsn policy ≡ false) ⊎ ReadsOwnWrites state c.replay_lsn)
    × ((requires_replica_lag policy ≡ false) ⊎ IsNotLate max c.lag_ms)

-- A replica that may be read from.
abbrev pub IsSafe : ReplicaCandidate → FreshnessPolicy → ReadAfterWriteState → ℕ → Type 0
IsSafe c policy state max =
    ((c.healthy ≡ true) × (c.split_brain ≡ false)) × IsFresh c policy state max

satisfies_lsn_iff :
    (state : ReadAfterWriteState) (replay : Option PgLsn)
    → (satisfies_lsn state replay ≡ true) ↔ ReadsOwnWrites state replay
satisfies_lsn_iff disabled replay = (λ _. tt, λ _. refl)
satisfies_lsn_iff ReadAfterWriteState.unknown replay = ground arith
satisfies_lsn_iff (required lsn) none = (λ h. ground arith, λ (p, (e, l)). ground arith)
satisfies_lsn_iff (required lsn) (some p) =
    (λ h. (p, (refl, ground arith)), λ (q, (e, l)). ground arith)

satisfies_lag_iff : (max : ℕ) (lag : Option ℕ) → (satisfies_lag max lag ≡ true) ↔ IsNotLate max lag
satisfies_lag_iff max none = (λ h. ground arith, λ (p, (e, l)). ground arith)
satisfies_lag_iff max (some l) = (λ h. (l, (refl, ground arith)), λ (q, (e, k)). ground arith)

module _ {P Q : Type 0} where
  tests_iff :
      (h s r a l m : Bool)
      → (a ≡ true) ↔ P
      → (m ≡ true) ↔ Q
      → ((h && not s && ((not r || a) && (not l || m))) ≡ true)
        ↔ (((h ≡ true) × (s ≡ false)) × (((r ≡ false) ⊎ P) × ((l ≡ false) ⊎ Q)))
  tests_iff h s r a l m p q = ground (arith, p, q)

pub is_safe_iff :
    (c : ReplicaCandidate) (policy : FreshnessPolicy) (state : ReadAfterWriteState) (max : ℕ)
    → (is_safe c policy state max ≡ true) ↔ IsSafe c policy state max
unfolding is_safe replica_satisfies_freshness
is_safe_iff c policy state max =
    tests_iff c.healthy c.split_brain (requires_session_write_lsn policy)
      (satisfies_lsn state c.replay_lsn) (requires_replica_lag policy) (satisfies_lag max c.lag_ms)
      (satisfies_lsn_iff state c.replay_lsn) (satisfies_lag_iff max c.lag_ms)

abbrev pub In : ReplicaCandidate → List ReplicaCandidate → Type 0
In c [] = ⊥
In c (x ∷ xs) = (c ≡ x) ⊎ In c xs

abbrev pair_leb : ℕ → ℕ → ℕ → ℕ → Bool
pair_leb l i m j = ltb l m || (l == m && leb i j)

pair_leb_trans :
    (l i m j n k : ℕ) → pair_leb l i m j ≡ true → pair_leb m j n k ≡ true → pair_leb l i n k ≡ true
pair_leb_trans l i m j n k h h' = ground arith

pair_leb_total : (l i m j : ℕ) → pair_leb l i m j ≡ false → pair_leb m j l i ≡ true
pair_leb_total l i m j h = ground arith

pair_leb_refl : (l i : ℕ) → pair_leb l i l i ≡ true
pair_leb_refl l i = ground arith

module _ (policy : FreshnessPolicy) (state : ReadAfterWriteState) (max : ℕ) where
  -- The candidate comes first among the safe ones.
  abbrev pub IsLeast : ReplicaCandidate → List ReplicaCandidate → Type 0
  IsLeast c = All (λ d. (is_safe d policy state max ≡ false) ⊎ (key_leb c d ≡ true))

  IsLeast-trans :
      (c d : ReplicaCandidate) (cs : List ReplicaCandidate)
      → key_leb c d ≡ true
      → IsLeast d cs
      → IsLeast c cs
  IsLeast-trans c d [] h all = tt
  IsLeast-trans c d (x ∷ xs) h (inl unsafe, all) = (inl unsafe, IsLeast-trans c d xs h all)
  IsLeast-trans c d (x ∷ xs) h (inr k, all) = (
    inr (pair_leb_trans _ _ (lag_or_max d.lag_ms) d.replica_id _ _ h k),
    IsLeast-trans c d xs h all,
  )

  abbrev pub Selected : List ReplicaCandidate → Option ReplicaCandidate → Type 0
  Selected cs none = All (λ d. is_safe d policy state max ≡ false) cs
  Selected cs (some c) = (In c cs × (is_safe c policy state max ≡ true)) × IsLeast c cs

  Unsafe-IsLeast :
      (c : ReplicaCandidate) (cs : List ReplicaCandidate)
      → All (λ d. is_safe d policy state max ≡ false) cs
      → IsLeast c cs
  Unsafe-IsLeast c [] h = tt
  Unsafe-IsLeast c (x ∷ xs) (h, hs) = (inl h, Unsafe-IsLeast c xs hs)

  least-Selected :
      (c : ReplicaCandidate) (cs : List ReplicaCandidate) (o : Option ReplicaCandidate)
      → is_safe c policy state max ≡ true
      → Selected cs o
      → Selected (c ∷ cs) (least c o)
  least-Selected c cs none h s = (
    (inl refl, h),
    (inr (pair_leb_refl (lag_or_max c.lag_ms) c.replica_id), Unsafe-IsLeast c cs s),
  )
  least-Selected c cs (some d) h ((there, safe), all) = elim (Bool-cases (key_leb c d)) [
    | inl e ↦ rw e (
      (inl refl, h),
      (inr (pair_leb_refl (lag_or_max c.lag_ms) c.replica_id), IsLeast-trans c d cs e all),
    )
    | inr e ↦
        rw e
          ((inr there, safe), (inr (pair_leb_total (lag_or_max c.lag_ms) c.replica_id _ _ e), all))
  ]

  skipped-Selected :
      (c : ReplicaCandidate) (cs : List ReplicaCandidate) (o : Option ReplicaCandidate)
      → is_safe c policy state max ≡ false
      → Selected cs o
      → Selected (c ∷ cs) o
  skipped-Selected c cs none h s = (h, s)
  skipped-Selected c cs (some d) h ((there, safe), all) = ((inr there, safe), (inl h, all))

  -- The search finds a safe candidate that comes first among the safe ones, or none is safe.
  pub select_safe_replica-Selected :
      (cs : List ReplicaCandidate) → Selected cs (select_safe_replica cs state max policy)
  unfolding select_safe_replica
  select_safe_replica-Selected [] = tt
  select_safe_replica-Selected (c ∷ cs) = elim (Bool-cases (is_safe c policy state max)) [
    | inl e ↦
        rw (select_safe_replica, e)
          (least-Selected c cs (select_safe_replica cs state max policy) e
            (select_safe_replica-Selected cs))
    | inr e ↦
        rw (select_safe_replica, e)
          (skipped-Selected c cs (select_safe_replica cs state max policy) e
            (select_safe_replica-Selected cs))
  ]
