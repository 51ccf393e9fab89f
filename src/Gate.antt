-- ===== src/Gate.antt =====
-- The gate that bounds how many checkouts are in flight and how many wait, of
-- crates/pg-kinetic-core/src/traffic/backpressure.rs: its state, the calls that change it at once,
-- and the limit of a route. Checkouts, which run at the same time, are in the child Checkout.
pub mod Checkout
pub mod Counts
pub mod Bounds
pub mod Limits
pub mod Leak
mod Tests
use pg_kinetic.Prelude.{
  ℕ, zero, suc, ◌+◌, ◌*◌, ◌/◌, ◌-◌, ◌^◌, min, max, Bool, true, false, Option, none, some, List, [],
  ◌∷◌, ◌++◌, if◌then◌else◌, ◌==◌, length,
}
use pg_kinetic.Prelude.Tables.{get, put}

pub data BackpressureError : Type 0 where
  queue_full timeout capacity_closed : BackpressureError

-- `permits` are those that the semaphore has left.
pub record BackpressureGate : Type 0 where
  pub permits : ℕ
  pub max_in_flight : ℕ
  pub dynamic_limit : ℕ
  pub max_waiters : ℕ
  pub waiters : ℕ
  pub in_flight : ℕ

unfoldable pub gate_new : ℕ → ℕ → BackpressureGate
gate_new max_in_flight max_waiters =
    let bound = max max_in_flight 1 in
    record {
      permits = bound;
      max_in_flight = bound;
      dynamic_limit = bound;
      max_waiters = max_waiters;
      waiters = 0;
      in_flight = 0;
    }

unfoldable pub unbounded : ℕ → BackpressureGate
unfolding gate_new
unbounded max_waiters = gate_new (2 ^ 61 - 1) max_waiters

unfoldable pub with_dynamic_limit : ℕ → ℕ → ℕ → BackpressureGate
with_dynamic_limit max_in_flight max_waiters dynamic_limit =
    let bound = max max_in_flight 1 in
    record {
      permits = bound;
      max_in_flight = bound;
      dynamic_limit = min (max dynamic_limit 1) bound;
      max_waiters = max_waiters;
      waiters = 0;
      in_flight = 0;
    }

unfoldable pub limit : BackpressureGate → ℕ
limit gate = min (max gate.dynamic_limit 1) gate.max_in_flight

unfoldable pub set_limit : BackpressureGate → ℕ → BackpressureGate
set_limit gate value = record gate { dynamic_limit = min (max value 1) gate.max_in_flight }

pub data RoutePriority : Type 0 where
  critical normal sheddable : RoutePriority

pub record RouteFairnessConfig : Type 0 where
  pub weight : ℕ
  pub route_max : Option ℕ
  pub priority : RoutePriority

abbrev pub default_fairness : RouteFairnessConfig
default_fairness = record { weight = 1; route_max = none; priority = normal }

pub data FairnessError : Type 0 where
  zero_weight zero_max_in_flight : FairnessError

abbrev pub is_zero : Option ℕ → Bool
is_zero none = false
is_zero (some n) = n == 0

unfoldable pub validate : RouteFairnessConfig → Option FairnessError
validate config =
    if config.weight == 0
    then some zero_weight
    else if is_zero config.route_max
    then some zero_max_in_flight
    else none

-- `values().map(|policy| policy.weight).sum()`.
abbrev pub weights {ℓ} : {K : Type ℓ} → List (K × RouteFairnessConfig) → ℕ
weights [] = 0
weights ((_, policy) ∷ policies) = policy.weight + weights policies

abbrev pub or_default_fairness : Option RouteFairnessConfig → RouteFairnessConfig
or_default_fairness none = default_fairness
or_default_fairness (some policy) = policy

abbrev pub unwrap_or : Option ℕ → ℕ → ℕ
unwrap_or none n = n
unwrap_or (some m) n = m

-- The routes of a coordinator, whose keys are compared by `same`.
module _ {ℓ} {K : Type ℓ} (same : K → K → Bool) where
  abbrev pub Policies : Type ℓ
  Policies = List (K × RouteFairnessConfig)

  unfoldable pub configure_route :
      Policies → K → RouteFairnessConfig → Option FairnessError × Policies
  unfolding validate
  configure_route policies route config = elim (validate config) [
    | some e ↦ (some e, policies)
    | none ↦ (none, put same route config policies)
  ]

  -- `saturating_mul(…).saturating_div(…).max(1)`; the sum of the weights is taken to fit a usize.
  unfoldable pub weighted_limit : ℕ → Policies → K → ℕ
  weighted_limit max_route_in_flight policies route =
      let policy = or_default_fairness (get same route policies) in
      max (min (max_route_in_flight * policy.weight) (2 ^ 64 - 1) / max (weights policies) 1) 1

  abbrev pub Routes : Type ℓ
  Routes = List (K × BackpressureGate)

  abbrev pub entry_or :
      K → BackpressureGate → Routes → Option BackpressureGate → BackpressureGate × Routes
  entry_or route made routes (some gate) = (gate, routes)
  entry_or route made routes none = (made, put same route made routes)

  -- The gate of a route, which is made where there is none.
  unfoldable pub route_gate : ℕ → ℕ → Policies → Routes → K → BackpressureGate × Routes
  unfolding gate_new weighted_limit
  route_gate max_route_in_flight max_route_waiters policies routes route =
      let policy = or_default_fairness (get same route policies) in
      let made =
        gate_new (unwrap_or policy.route_max (weighted_limit max_route_in_flight policies route))
          max_route_waiters in
      entry_or route made routes (get same route routes)
