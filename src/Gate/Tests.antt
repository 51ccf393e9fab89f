-- ===== src/Gate/Tests.antt =====
-- The gate at concrete inputs.
use pg_kinetic.Prelude.{
  ℕ, ◌≤◌, max, Option, some, List, [], ◌∷◌, ◌==◌, All, ◌≡◌, refl, sym, subst, arith,
}
use pg_kinetic.Prelude.Tables.{get}
use pg_kinetic.Gate.{gate_new, limit, RouteFairnessConfig, critical, normal}
use pg_kinetic.Gate.Checkout.{
  gone, Checkouts, Reach, start, later, checkout, move, load, below_limit, at_limit, try_acquire,
  pause, pause_waits, count,
}
use pg_kinetic.Gate.Counts.{total}
use pg_kinetic.Gate.Bounds.{is_holding, in_flight-bounded, IsOver, permits_come_back}
use pg_kinetic.Gate.Leak.{abandoned_waiter_leaks}

-- One checkout that `in_flight` counts, and another that waits for the capacity to change.
abbrev one_waits : (s : Checkouts) × Reach (gate_new 1 2) s
unfolding gate_new limit
one_waits =
    let asked =
      later (later (later start checkout) (move 0 refl load))
        (move 0 refl (below_limit (omega arith))) in
    let taken = later (later asked (move 0 refl (try_acquire (omega arith)))) (move 0 refl count) in
    let second =
      later (later (later taken checkout) (move 0 refl load))
        (move 0 refl (at_limit (omega arith))) in
    (_, later (later second (move 0 refl pause)) (move 0 refl (pause_waits (omega arith))))

in_flight-bounded_example :
    (total is_holding one_waits.0.tasks ≤ one_waits.0.gate.in_flight)
    × (one_waits.0.gate.in_flight ≤ max 1 1)
in_flight-bounded_example = in_flight-bounded 1 2 one_waits.0 one_waits.1

-- Both checkouts are over, though the second was dropped where it waited.
abbrev all_over :
    (s : Checkouts) × (Reach (gate_new 1 2) s
      × ((s.tasks ≡ gone ∷ gone ∷ []) × (s.gate.waiters ≡ 1)))
all_over = abandoned_waiter_leaks 2 (omega arith)

abandoned_waiter_leaks_example :
    (s : Checkouts) × (Reach (gate_new 1 2) s
      × ((s.tasks ≡ gone ∷ gone ∷ []) × (s.gate.waiters ≡ 1)))
abandoned_waiter_leaks_example = abandoned_waiter_leaks 2 (omega arith)

both_gone : All IsOver all_over.0.tasks
both_gone = subst (All IsOver) (sym all_over.1.1.0) (refl, (refl, tt))

permits_come_back_example : (all_over.0.gate.permits ≡ max 1 1) × (all_over.0.gate.in_flight ≡ 0)
permits_come_back_example = permits_come_back 1 2 all_over.0 all_over.1.0 both_gone

abbrev two_routes : List (ℕ × RouteFairnessConfig)
two_routes =
    (1, record { weight = 3; route_max = Option.none; priority = critical })
    ∷ (2, record { weight = 1; route_max = Option.none; priority = normal })
    ∷ []

second_found :
    get ◌==◌ 2 two_routes ≡ some (record { weight = 1; route_max = Option.none; priority = normal })
unfolding get
second_found = refl
