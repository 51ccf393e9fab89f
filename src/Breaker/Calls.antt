-- ===== src/Breaker/Calls.antt =====
-- A breaker after any calls (crates/pg-kinetic-proxy/src/resilience.rs).
use pg_kinetic.Prelude.{
  ℕ, ◌+◌, ◌≤◌, true, List, [], ◌∷◌, ◌≡◌, arith, Option-cases, inl, inr, is_some,
}
use pg_kinetic.Breaker.{
  opened, BreakerConfig, BreakerData, breaker_new, cool_down, allow_request, record_success,
  record_failure, state_at, configure,
}

-- One call, with the time that it is made at.
pub data Call : Type 0 where
  allow fail look : ℕ → Call
  succeed : Call
  set : BreakerConfig → Call

unfoldable pub call : BreakerData → Call → BreakerData
unfolding allow_request record_failure state_at record_success configure
call breaker (allow now) = (allow_request breaker now).1
call breaker (fail now) = record_failure breaker now
call breaker (look now) = (state_at breaker now).1
call breaker succeed = record_success breaker
call breaker (set config) = configure breaker config

unfoldable pub run : BreakerData → List Call → BreakerData
unfolding call
run breaker [] = breaker
run breaker (c ∷ cs) = run (call breaker c) cs

-- An open breaker knows since when.
abbrev IsTimed : BreakerData → Type 0
IsTimed breaker = breaker.state ≡ opened → is_some breaker.opened_at ≡ true

call-IsTimed : (breaker : BreakerData) (c : Call) → IsTimed breaker → IsTimed (call breaker c)
unfolding call allow_request record_failure state_at record_success configure cool_down
call-IsTimed breaker (allow now) h = λ e. ground (arith, h, e)
call-IsTimed breaker (fail now) h = λ e. ground (arith, h, e)
call-IsTimed breaker (look now) h = λ e. ground (arith, h, e)
call-IsTimed breaker succeed h = λ e. ground (arith, e)
call-IsTimed breaker (set config) h = h

run-IsTimed : (breaker : BreakerData) (cs : List Call) → IsTimed breaker → IsTimed (run breaker cs)
unfolding run
run-IsTimed breaker [] h = h
run-IsTimed breaker (c ∷ cs) h = run-IsTimed (call breaker c) cs (call-IsTimed breaker c h)

timed_ends :
    (breaker : BreakerData)
    → IsTimed breaker
    → breaker.state ≡ opened
    → (t : ℕ) × ((now : ℕ) → t ≤ now → (allow_request breaker now).0 ≡ true)
unfolding allow_request cool_down
timed_ends breaker timed h = elim (Option-cases breaker.opened_at) [
  | inl e ↦ absurd (ground (arith, timed h, e))
  | inr (t, e) ↦ (t + breaker.config.cooldown, λ now late. ground (arith, h, e))
]

-- Whatever was called before, a breaker that is open lets the next request through from some time
-- on.
pub open_ends :
    (config : BreakerConfig) (cs : List Call)
    → (run (breaker_new config) cs).state ≡ opened
    → (t : ℕ) × ((now : ℕ) → t ≤ now → (allow_request (run (breaker_new config) cs) now).0 ≡ true)
unfolding breaker_new
open_ends config cs h =
    timed_ends (run (breaker_new config) cs)
      (run-IsTimed (breaker_new config) cs (λ e. ground (arith, e))) h
