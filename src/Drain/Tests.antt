-- ===== src/Drain/Tests.antt =====
-- Runs of the drain of crates/pg-kinetic-proxy/src/ops/drain.rs.
use pg_kinetic.Drain.Early.{early_wait_panics}
use pg_kinetic.Drain.Invariant.{weight, sum_of, active_clients_count}
use pg_kinetic.Drain.{
  Orderings, acquire_release, seq_cst, draining, outside, began, over, completed, panicked, check,
  count, enter, drop_guard, here, System, client, begin_drain, set_deadline, see_start,
  take_deadline, see_none, Reachable, stay, step, init,
}
use pg_kinetic.Prelude.{◌≡◌, refl, inl, some, [], ◌∷◌, arith}

-- One client is served, and leaves before the drain.
abbrev served : System
served = record {
  state = draining;
  active_clients = 0;
  past = 1 ∷ 1 ∷ 0 ∷ 0 ∷ [];
  drain_deadline = some 30;
  clients = outside ∷ [];
  begin = over;
  wait = completed;
}

served_reachable : (o : Orderings) → Reachable o (init 1) served
served_reachable acquire_release =
    step
      (step
        (step
          (step
            (step
              (step
                (step (step (step stay (client (here (check (inl refl))))) (client (here count)))
                  (client (here (enter (inl refl)))))
                (client (here drop_guard)))
              (begin_drain refl refl))
            (set_deadline 30 refl))
          (see_start refl (inl refl) (ground arith)))
        (take_deadline refl))
      (see_none refl (inl refl))
served_reachable seq_cst =
    step
      (step
        (step
          (step
            (step
              (step
                (step (step (step stay (client (here (check refl)))) (client (here count)))
                  (client (here (enter refl))))
                (client (here drop_guard)))
              (begin_drain refl refl))
            (set_deadline 30 refl))
          (see_start refl refl (ground arith)))
        (take_deadline refl))
      (see_none refl refl)

active_clients_count_example : served.active_clients ≡ sum_of weight served.clients
active_clients_count_example =
    active_clients_count acquire_release 1 (served_reachable acquire_release)

early_wait_panics_example :
    Reachable acquire_release
      (init 2)
      (record (init 2) { state = draining; begin = began; wait = panicked })
early_wait_panics_example = early_wait_panics acquire_release 2
