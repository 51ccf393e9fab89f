-- ===== src/Gate/Bounds.antt =====
-- What one gate promises, however its checkouts interleave
-- (crates/pg-kinetic-core/src/traffic/backpressure.rs).
use pg_kinetic.Prelude.{ℕ, ◌≤◌, max, List, [], ◌∷◌, All, ◌≡◌, refl, sym, ◌∙◌, subst, arith}
use pg_kinetic.Gate.{set_limit, gate_new}
use pg_kinetic.Gate.Checkout.{
  CheckoutPc, awaiting, holding, paused, Checkouts, set, Step, checkout, move, change_limit, Reach,
  start, later,
}
use pg_kinetic.Gate.Counts.{
  total, total-set, total_mono, total_le, has_permit, is_counted, is_waiter, is_waiting, Balanced,
  Move-bounds, Move-Balanced,
}

-- The counters of the gate against its checkouts.
abbrev Good : Checkouts → Type 0
Good s =
    Balanced s.gate (total has_permit s.tasks) (total is_counted s.tasks) (total is_waiter s.tasks)
      (total (is_waiting s.gate.max_waiters) s.tasks)

Step-Good : (s t : Checkouts) → Good s → Step s t → Good t
unfolding set_limit
Step-Good s t b checkout = record {
  permits = omega (arith, b.permits);
  in_flight = omega (arith, b.in_flight);
  waiters = omega (arith, b.waiters);
  waiting = omega (arith, b.waiting);
}
Step-Good s t b (change_limit value) = record {
  permits = b.permits;
  in_flight = b.in_flight;
  waiters = b.waiters;
  waiting = b.waiting;
}
Step-Good s t b (move i {x} {y} {g} at m) =
    let after : Balanced g (total has_permit (set s.tasks i y)) (total is_counted (set s.tasks i y))
        (total is_waiter (set s.tasks i y))
        (total (is_waiting s.gate.max_waiters) (set s.tasks i y)) =
      Move-Balanced s.gate g x y _ _ _ _ _ _ _ _ m b (total-set has_permit s.tasks i x y at)
        (total-set is_counted s.tasks i x y at) (total-set is_waiter s.tasks i x y at)
        (total-set (is_waiting s.gate.max_waiters) s.tasks i x y at)
        (total_le s.gate.max_waiters s.tasks) in
    subst
      (λ n.
        Balanced g (total has_permit (set s.tasks i y)) (total is_counted (set s.tasks i y))
          (total is_waiter (set s.tasks i y)) (total (is_waiting n) (set s.tasks i y)))
      (sym (Move-bounds s.gate g x y m).1) after

Reach-Good : (m w : ℕ) (s : Checkouts) → Reach (gate_new m w) s → Good s
unfolding gate_new
Reach-Good m w s start = record {
  permits = omega arith;
  in_flight = omega arith;
  waiters = omega arith;
  waiting = omega arith;
}
Reach-Good m w t (later {s} r step) = Step-Good s t (Reach-Good m w s r) step

Step-bounds :
    (s t : Checkouts)
    → Step s t
    → (t.gate.max_in_flight ≡ s.gate.max_in_flight) × (t.gate.max_waiters ≡ s.gate.max_waiters)
unfolding set_limit
Step-bounds s t checkout = (refl, refl)
Step-bounds s t (move i {x} {y} {g} at m) = Move-bounds s.gate g x y m
Step-bounds s t (change_limit value) = (refl, refl)

Reach-bounds :
    (m w : ℕ) (s : Checkouts)
    → Reach (gate_new m w) s
    → (s.gate.max_in_flight ≡ max m 1) × (s.gate.max_waiters ≡ w)
unfolding gate_new
Reach-bounds m w s start = (refl, refl)
Reach-bounds m w t (later {s} r step) =
    let (e, f) = Reach-bounds m w s r in let (e', f') = Step-bounds s t step in (e' ∙ e, f' ∙ f)

abbrev pub is_holding : CheckoutPc → ℕ
is_holding holding = 1
is_holding _ = 0

-- In the await of `acquire_owned` or of `wait_for_capacity_change`.
abbrev pub is_parked : CheckoutPc → ℕ
is_parked awaiting = 1
is_parked paused = 1
is_parked _ = 0

holding_le : (x : CheckoutPc) → is_holding x ≤ is_counted x
holding_le holding = omega arith
holding_le _ = omega arith

counted_le : (x : CheckoutPc) → is_counted x ≤ has_permit x
counted_le holding = omega arith
counted_le _ = omega arith

parked_le : (m : ℕ) (x : CheckoutPc) → is_parked x ≤ is_waiting m x
parked_le m awaiting = omega arith
parked_le m _ = ground arith

-- However the checkouts of a new gate interleave, and whatever its dynamic limit is set to, the
-- permits that are held are among those that `in_flight` counts, which are at most `max_in_flight`,
-- or one where that is 0.
pub in_flight-bounded :
    (max_in_flight max_waiters : ℕ) (s : Checkouts)
    → Reach (gate_new max_in_flight max_waiters) s
    → (total is_holding s.tasks ≤ s.gate.in_flight) × (s.gate.in_flight ≤ max max_in_flight 1)
in_flight-bounded m w s r =
    let b = Reach-Good m w s r in
    (
      omega (arith, b.in_flight, total_mono is_holding is_counted holding_le s.tasks),
      omega (
        arith,
        b.in_flight,
        b.permits,
        (Reach-bounds m w s r).0,
        total_mono is_counted has_permit counted_le s.tasks,
      ),
    )

-- However the checkouts of a new gate interleave, at most `max_waiters` of them are parked.
pub parked-bounded :
    (max_in_flight max_waiters : ℕ) (s : Checkouts)
    → Reach (gate_new max_in_flight max_waiters) s
    → total is_parked s.tasks ≤ max_waiters
parked-bounded m w s r = omega (
  arith,
  (Reach-Good m w s r).waiting,
  (Reach-bounds m w s r).1,
  total_mono is_parked (is_waiting s.gate.max_waiters) (parked_le s.gate.max_waiters) s.tasks,
)

abbrev pub IsOver : CheckoutPc → Type 0
IsOver x = has_permit x ≡ 0

-- In a reachable state of a new gate in which no checkout has a permit, whether they failed,
-- ended or were dropped, the gate has all its permits back and counts nothing in flight.
pub permits_come_back :
    (max_in_flight max_waiters : ℕ) (s : Checkouts)
    → Reach (gate_new max_in_flight max_waiters) s
    → All IsOver s.tasks
    → (s.gate.permits ≡ max max_in_flight 1) × (s.gate.in_flight ≡ 0)
permits_come_back m w s r over =
    let b = Reach-Good m w s r in
    let none_left = no_permits s.tasks over in
    (
      omega (arith, b.permits, (Reach-bounds m w s r).0, none_left),
      omega (arith, b.in_flight, total_mono is_counted has_permit counted_le s.tasks, none_left),
    )
  where
    no_permits : (xs : List CheckoutPc) → All IsOver xs → total has_permit xs ≡ 0
    no_permits [] h = omega arith
    no_permits (x ∷ xs) h = omega (arith, h.0, no_permits xs h.1)
