-- ===== src/Drain/Early.antt =====
-- A wait that starts too early: crates/pg-kinetic-proxy/src/ops/drain.rs.
use pg_kinetic.Prelude.{ℕ, refl, inl, arith}
use pg_kinetic.Drain.{
  Orderings, acquire_release, seq_cst, DrainState, Loads, panicked, init, Reachable, stay, step,
  begin_drain, see_start, take_deadline, draining, began,
}

pub Loads-same : (o : Orderings) (state : DrainState) → Loads o state state
Loads-same acquire_release state = inl refl
Loads-same seq_cst state = refl

-- Between the exchange of the state and the deadline of `begin_drain`, the task that waits can see
-- the drain and ask for a deadline that is not there, which panics, with any number of clients and either
-- ordering.
pub early_wait_panics :
    (o : Orderings) (n : ℕ)
    → Reachable o (init n) (record (init n) { state = draining; begin = began; wait = panicked })
early_wait_panics o n =
    step
      (step (step stay (begin_drain refl refl))
        (see_start refl (Loads-same o draining) (ground arith)))
      (take_deadline refl)
