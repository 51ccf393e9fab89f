-- ===== src/Breaker/Probe.antt =====
-- How many requests an open breaker lets through (crates/pg-kinetic-proxy/src/resilience.rs).
use pg_kinetic.Prelude.{
  ℕ, ◌+◌, ◌-◌, ◌<◌, ◌≤◌, Bool, true, some, List, [], ◌∷◌, All, if◌then◌else◌, ◌≡◌, refl, arith,
  Bool-cases, inl, inr,
}
use pg_kinetic.Breaker.{opened, half_open, BreakerData, cool_down, cooled, allow_request}

-- Requests at the times of a list, with nothing recorded in between: how many are let through, and
-- the breaker after them.
abbrev pub counted : Bool → ℕ × BreakerData → ℕ × BreakerData
counted allowed (n, breaker) = (if allowed then n + 1 else n, breaker)

abbrev pub requests : BreakerData → List ℕ → ℕ × BreakerData
unfolding allow_request
requests breaker [] = (0, breaker)
requests breaker (now ∷ nows) =
    counted (allow_request breaker now).0 (requests (allow_request breaker now).1 nows)

-- A half-open breaker whose probe is out lets no request through at any time and stays as it is,
-- as long as no outcome is recorded.
probe_never_expires :
    (breaker : BreakerData) (nows : List ℕ)
    → breaker.state ≡ half_open
    → breaker.probe_in_flight ≡ true
    → requests breaker nows ≡ (0, breaker)
unfolding requests allow_request cool_down
probe_never_expires breaker [] half out = refl
probe_never_expires breaker (now ∷ nows) half out =
    ground (arith, half, out, probe_never_expires breaker nows half out)

-- An open breaker lets one request through at most, as long as no outcome is recorded.
pub requests-opened :
    (breaker : BreakerData) (nows : List ℕ) → breaker.state ≡ opened → (requests breaker nows).0 ≤ 1
unfolding requests allow_request cool_down
requests-opened breaker [] h = omega arith
requests-opened breaker (now ∷ nows) h =
    elim (Bool-cases (cooled breaker.opened_at now breaker.config.cooldown)) [
      | inl e ↦ ground (
        arith,
        h,
        e,
        probe_never_expires (allow_request breaker now).1 nows (ground (arith, h, e))
            (ground (arith, h, e)),
      )
      | inr e ↦ ground (arith, h, e, requests-opened breaker nows h)
    ]

-- Until the cooldown has passed since it opened, an open breaker lets nothing through and stays as
-- it is.
pub requests-before :
    (breaker : BreakerData) (opened_at : ℕ) (nows : List ℕ)
    → breaker.state ≡ opened
    → breaker.opened_at ≡ some opened_at
    → All (λ now. now - opened_at < breaker.config.cooldown) nows
    → requests breaker nows ≡ (0, breaker)
unfolding requests allow_request cool_down
requests-before breaker t [] h o early = refl
requests-before breaker t (now ∷ nows) h o early =
    ground (arith, h, o, early.0, requests-before breaker t nows h o early.1)
