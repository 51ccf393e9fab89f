-- ===== src/Breaker/Failures.antt =====
-- When a breaker opens (crates/pg-kinetic-proxy/src/resilience.rs).
use pg_kinetic.Prelude.{
  ℕ, ◌+◌, ◌<◌, ◌≤◌, true, false, List, [], ◌∷◌, length, if◌then◌else◌, leb, ◌≡◌, refl, ap, ◌∙◌,
  arith, Bool-cases, inl, inr,
}
use pg_kinetic.Breaker.{
  closed, opened, BreakerConfig, BreakerData, breaker_new, usize_max, record_failure,
}

-- Failures at the times of a list, one after the other.
abbrev pub record_failures : BreakerData → List ℕ → BreakerData
unfolding record_failure
record_failures breaker [] = breaker
record_failures breaker (now ∷ nows) = record_failures (record_failure breaker now) nows

stays_open :
    (breaker : BreakerData) (nows : List ℕ)
    → breaker.state ≡ opened
    → (record_failures breaker nows).state ≡ opened
unfolding record_failures record_failure
stays_open breaker [] h = h
stays_open breaker (now ∷ nows) h = stays_open (record_failure breaker now) nows (ground (arith, h))

at_threshold :
    (breaker : BreakerData) (now : ℕ)
    → breaker.state ≡ closed
    → leb breaker.config.failure_threshold (breaker.failures + 1) ≡ true
    → breaker.config.failure_threshold ≤ usize_max
    → (record_failure breaker now).state ≡ opened
unfolding record_failure
at_threshold breaker now h e high = ground (arith, h, e)

below :
    (breaker : BreakerData) (now : ℕ)
    → breaker.state ≡ closed
    → breaker.failures + 1 < breaker.config.failure_threshold
    → breaker.config.failure_threshold ≤ usize_max
    → record_failure breaker now
      ≡ record breaker { probe_in_flight = false; failures = breaker.failures + 1 }
unfolding record_failure
below breaker now h low high = ground (arith, h)

closed_counts :
    (breaker : BreakerData) (nows : List ℕ)
    → breaker.state ≡ closed
    → breaker.failures < breaker.config.failure_threshold
    → breaker.config.failure_threshold ≤ usize_max
    → (record_failures breaker nows).state ≡ (
        if leb breaker.config.failure_threshold (breaker.failures + length nows)
        then opened
        else closed)
unfolding record_failures
closed_counts breaker [] h low high = ground arith
closed_counts breaker (now ∷ nows) h low high =
    elim (Bool-cases (leb breaker.config.failure_threshold (breaker.failures + 1))) [
      | inl e ↦
          ground (
            arith,
            stays_open (record_failure breaker now) nows (at_threshold breaker now h e high),
          )
      | inr e ↦
          let next : BreakerData = record breaker {
            probe_in_flight = false;
            failures = breaker.failures + 1;
          } in
          ap (λ b. (record_failures b nows).state) (below breaker now h (ground arith) high)
          ∙ (closed_counts next nows h (ground arith) high ∙ ground arith)
    ]

-- From a new breaker, with a threshold that is not 0 and fits a usize, failures in a row leave
-- it open exactly when there are at least as many as the threshold, and closed otherwise.
pub record_failures-breaker_new :
    (config : BreakerConfig) (nows : List ℕ)
    → 0 < config.failure_threshold
    → config.failure_threshold ≤ usize_max
    → (record_failures (breaker_new config) nows).state
      ≡ (if leb config.failure_threshold (length nows) then opened else closed)
unfolding breaker_new
record_failures-breaker_new config nows low high =
    closed_counts (breaker_new config) nows refl low high ∙ ground arith
