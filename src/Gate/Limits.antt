-- ===== src/Gate/Limits.antt =====
-- The limits that are set (crates/pg-kinetic-core/src/traffic/backpressure.rs).
use pg_kinetic.Prelude.{ℕ, ◌*◌, ◌/◌, ◌-◌, ◌^◌, ◌≤◌, min, max, Bool, some, List, [], ◌∷◌, ◌≡◌, arith}
use native.Mathlib.Nat.{mul-le-mul_left, div-le_of_le-mul, mul_comm}
use pg_kinetic.Prelude.Tables.{get}
use pg_kinetic.Gate.{gate_new, limit, set_limit, RouteFairnessConfig, weights, weighted_limit}

-- A limit that is set is kept between 1 and `max_in_flight`.
pub limit-set_limit :
    (max_in_flight max_waiters value : ℕ)
    → limit (set_limit (gate_new max_in_flight max_waiters) value)
      ≡ min (max value 1) (max max_in_flight 1)
unfolding limit set_limit gate_new
limit-set_limit m w v = omega arith

share : (m p total : ℕ) → p ≤ total → 1 ≤ m → max (min (m * p) (2 ^ 64 - 1) / max total 1) 1 ≤ m
share m p total le low =
    let d : ℕ = max total 1 in
    let scaled : m * p ≤ m * d = mul-le-mul_left m (omega arith) in
    let below : min (m * p) (2 ^ 64 - 1) / d ≤ m =
      div-le_of_le-mul d (omega (arith, scaled, mul_comm d m)) in
    omega (arith, below)

module _ {ℓ} {K : Type ℓ} (same : K → K → Bool) where
  weights-get :
      (policies : List (K × RouteFairnessConfig)) (route : K) (policy : RouteFairnessConfig)
      → get same route policies ≡ some policy
      → policy.weight ≤ weights policies
  unfolding get
  weights-get [] route policy h = cc
  weights-get ((k, p) ∷ policies) route policy h =
      ground (arith, h, weights-get policies route policy)

  -- The limit of a route that has a policy is at least 1, and at most the bound for a route, if
  -- that is not 0.
  pub weighted_limit-bounded :
      (max_route_in_flight : ℕ) (policies : List (K × RouteFairnessConfig)) (route : K)
      (policy : RouteFairnessConfig)
      → get same route policies ≡ some policy
      → 1 ≤ max_route_in_flight
      → (1 ≤ weighted_limit same max_route_in_flight policies route)
        × (weighted_limit same max_route_in_flight policies route ≤ max_route_in_flight)
  unfolding weighted_limit
  weighted_limit-bounded m policies route policy found low =
      let le = weights-get policies route policy found in
      rw (found, weighted_limit) (omega arith, share m policy.weight (weights policies) le low)
