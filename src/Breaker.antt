-- ===== src/Breaker.antt =====
-- The circuit breaker of a backend, and the eligibility for a hedged read
-- (crates/pg-kinetic-proxy/src/resilience.rs). Each call holds the mutex from start to end, so the
-- calls follow each other; an `Instant` is the time since some start.
pub mod Probe
pub mod Failures
pub mod Calls
mod Tests
use pg_kinetic.Prelude.{
  ℕ, ◌+◌, ◌-◌, ◌^◌, min, Bool, true, false, ◌&&◌, not, Option, none, some, if◌then◌else◌, leb,
  is_some,
}
use pg_kinetic.Routing.{QueryClass, read_only, read_candidate}

pub data BreakerState : Type 0 where
  closed opened half_open : BreakerState

pub record BreakerConfig : Type 0 where
  pub failure_threshold : ℕ
  pub cooldown : ℕ

pub record BreakerData : Type 0 where
  pub config : BreakerConfig
  pub state : BreakerState
  pub failures : ℕ
  pub opened_at : Option ℕ
  pub probe_in_flight : Bool

unfoldable pub breaker_new : BreakerConfig → BreakerData
breaker_new config = record {
  config = config;
  state = closed;
  failures = 0;
  opened_at = none;
  probe_in_flight = false;
}

-- `opened_at.is_some_and(|opened_at| now.duration_since(opened_at) >= cooldown)`.
abbrev pub cooled : Option ℕ → ℕ → ℕ → Bool
cooled none now cooldown = false
cooled (some opened_at) now cooldown = leb cooldown (now - opened_at)

abbrev pub is_open : BreakerState → Bool
is_open opened = true
is_open _ = false

-- The `if` at the start of `allow_request` and of `state`.
unfoldable pub cool_down : BreakerData → ℕ → BreakerData
cool_down breaker now =
    if is_open breaker.state && cooled breaker.opened_at now breaker.config.cooldown
    then record breaker { state = half_open; probe_in_flight = false }
    else breaker

abbrev pub answer : BreakerState → BreakerData → Bool × BreakerData
answer closed breaker = (true, breaker)
answer opened breaker = (false, breaker)
answer half_open breaker =
    if not breaker.probe_in_flight
    then (true, record breaker { probe_in_flight = true })
    else (false, breaker)

unfoldable pub allow_request : BreakerData → ℕ → Bool × BreakerData
unfolding cool_down
allow_request breaker now = answer (cool_down breaker now).state (cool_down breaker now)

unfoldable pub record_success : BreakerData → BreakerData
record_success breaker = record breaker {
  state = closed;
  failures = 0;
  opened_at = none;
  probe_in_flight = false;
}

abbrev pub usize_max : ℕ
usize_max = 2 ^ 64 - 1

abbrev pub failed : BreakerState → BreakerData → ℕ → BreakerData
failed half_open breaker now = record breaker {
  state = opened;
  opened_at = some now;
  failures = breaker.config.failure_threshold;
}
failed closed breaker now =
    let failures = min (breaker.failures + 1) usize_max in
    if leb breaker.config.failure_threshold failures
    then record breaker { failures = failures; state = opened; opened_at = some now }
    else record breaker { failures = failures }
failed opened breaker now = breaker

unfoldable pub record_failure : BreakerData → ℕ → BreakerData
record_failure breaker now = failed breaker.state (record breaker { probe_in_flight = false }) now

unfoldable pub state_at : BreakerData → ℕ → BreakerState × BreakerData
unfolding cool_down
state_at breaker now = ((cool_down breaker now).state, cool_down breaker now)

unfoldable pub configure : BreakerData → BreakerConfig → BreakerData
configure breaker config = record breaker { config = config }

pub record HedgeEligibility : Type 0 where
  pub enabled : Bool
  pub query_class : QueryClass
  pub freshness_proven : Bool
  pub transaction_active : Bool
  pub pinned : Bool
  pub routing_certain : Bool
  pub safely_replayable : Bool

abbrev pub is_read : QueryClass → Bool
is_read read_only = true
is_read read_candidate = true
is_read _ = false

unfoldable pub is_eligible : HedgeEligibility → Bool
is_eligible h =
    h.enabled
    && (is_read h.query_class
        && (h.freshness_proven
            && (not h.transaction_active
                && (not h.pinned && (h.routing_certain && h.safely_replayable)))))

unfoldable pub with_pin_reason {ℓ} :
    {PinReason : Type ℓ} → HedgeEligibility → Option PinReason → HedgeEligibility
with_pin_reason h pin_reason = record h { pinned = is_some pin_reason }
