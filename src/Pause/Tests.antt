-- ===== src/Pause/Tests.antt =====
-- Runs of the pause of crates/pg-kinetic-proxy/src/ops/pause.rs.
use pg_kinetic.Pause.Released.{IsReleased, resumed_releases}
use pg_kinetic.Pause.{
  WaiterPc, asking, see_pause, register, park, here, System, waiter, wait_if_paused, pause, resume,
  notify_waiters, Reachable, stay, step, OwnSteps, init,
}
use pg_kinetic.Prelude.{refl, false, List, [], ◌∷◌, arith, All}

-- A task that fell asleep, and was woken.
abbrev resumed : System
resumed = record { paused = false; resuming = 0; waiters = asking ∷ [] }

resumed_reachable : Reachable init resumed
resumed_reachable =
    step
      (step
        (step
          (step (step (step (step stay pause) wait_if_paused) (waiter (here (see_pause refl))))
            (waiter (here register)))
          (waiter (here (park refl))))
        resume)
      (notify_waiters (omega arith))

resumed_releases_example :
    (ws : List WaiterPc) × (OwnSteps false (asking ∷ []) ws × All IsReleased ws)
resumed_releases_example = resumed_releases resumed_reachable refl refl
