-- ===== src/Gate/Leak.antt =====
-- A checkout that is dropped where it waits (crates/pg-kinetic-core/src/traffic/backpressure.rs).
use pg_kinetic.Prelude.{ℕ, ◌<◌, [], ◌∷◌, ◌≡◌, refl, arith}
use pg_kinetic.Gate.{limit, gate_new}
use pg_kinetic.Gate.Checkout.{
  gone, load, below_limit, at_limit, try_acquire, count, grant, pause, pause_waits, abandon_pause,
  release, released, Checkouts, checkout, move, Reach, start, later,
}

-- For any bound on the waiters that is not 0, a gate for one checkout reaches a state in which
-- both of its checkouts are over, one of them dropped where it waited, and `waiters` still
-- counts one.
pub abandoned_waiter_leaks :
    (max_waiters : ℕ)
    → 0 < max_waiters
    → (s : Checkouts) × (Reach (gate_new 1 max_waiters) s
        × ((s.tasks ≡ gone ∷ gone ∷ []) × (s.gate.waiters ≡ 1)))
unfolding gate_new limit
abandoned_waiter_leaks w h =
    let asked =
      later (later (later start checkout) (move 0 refl load))
        (move 0 refl (below_limit (omega arith))) in
    let taken = later (later asked (move 0 refl (try_acquire (omega arith)))) (move 0 refl count) in
    let holds = later taken (move 0 refl (grant (omega arith))) in
    let second =
      later (later (later holds checkout) (move 0 refl load))
        (move 0 refl (at_limit (omega arith))) in
    let waits = later (later second (move 0 refl pause)) (move 0 refl (pause_waits h)) in
    let dropped = later waits (move 0 refl abandon_pause) in
    let ended = later (later dropped (move 1 refl release)) (move 1 refl released) in
    (_, (ended, (refl, refl)))
