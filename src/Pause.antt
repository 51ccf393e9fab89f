-- ===== src/Pause.antt =====
-- crates/pg-kinetic-proxy/src/ops/pause.rs: the pause of the traffic, as steps of the waiters and of
-- those that pause and resume, which interleave. `notify_waiters` of the Notify of tokio wakes every
-- `Notified` that was made before it, whether it is awaited yet or not. The orderings of the atomics
-- are taken as sequentially consistent.
pub mod Released
mod Tests
use pg_kinetic.Prelude.{ℕ, ◌+◌, ◌-◌, ◌<◌, ◌≡◌, Bool, true, false, List, [], ◌∷◌}

-- The places of a task in `wait_if_paused`: at the test of the loop, behind it, with its `Notified`,
-- with one that was woken before it is awaited, asleep in it, and back from the call.
pub data WaiterPc : Type 0 where
  asking seen registered called parked released : WaiterPc

-- A step of a waiter: a test of `is_paused`, or the call of `notified`.
pub data Move (paused : Bool) : WaiterPc → WaiterPc → Type 0 where
  pass : paused ≡ false → Move paused asking released
  see_pause : paused ≡ true → Move paused asking seen
  register : Move paused seen registered
  pass_again : paused ≡ false → Move paused registered released
  park : paused ≡ true → Move paused registered parked
  pass_called : paused ≡ false → Move paused called released
  go_round : paused ≡ true → Move paused called asking

-- A step of one of the waiters.
pub data Among (paused : Bool) : List WaiterPc → List WaiterPc → Type 0 where
  here : {p q : WaiterPc} {ps : List WaiterPc} → Move paused p q → Among paused (p ∷ ps) (q ∷ ps)
  there :
      {p : WaiterPc} {ps qs : List WaiterPc} → Among paused ps qs → Among paused (p ∷ ps) (p ∷ qs)

-- What `notify_waiters` makes of a waiter.
abbrev pub woken : WaiterPc → WaiterPc
woken registered = called
woken parked = asking
woken p = p

abbrev pub wake_all : List WaiterPc → List WaiterPc
wake_all [] = []
wake_all (p ∷ ps) = woken p ∷ wake_all ps

-- The controller, with the calls of `resume` that have stored and not notified yet.
pub record System : Type 0 where
  pub paused : Bool
  pub resuming : ℕ
  pub waiters : List WaiterPc

pub data Step : System → System → Type 0 where
  waiter :
      {s : System} {waiters : List WaiterPc}
      → Among s.paused s.waiters waiters
      → Step s (record s { waiters = waiters })
  wait_if_paused : {s : System} → Step s (record s { waiters = asking ∷ s.waiters })
  pause : {s : System} → Step s (record s { paused = true })
  resume : {s : System} → Step s (record s { paused = false; resuming = s.resuming + 1 })
  notify_waiters :
      {s : System}
      → 0 < s.resuming
      → Step s (record s { resuming = s.resuming - 1; waiters = wake_all s.waiters })

pub data Reachable (start : System) : System → Type 0 where
  stay : Reachable start start
  step : {s t : System} → Reachable start s → Step s t → Reachable start t

-- Steps of the waiters alone.
pub data OwnSteps (paused : Bool) (start : List WaiterPc) : List WaiterPc → Type 0 where
  own_stay : OwnSteps paused start start
  own_step :
      {ps qs : List WaiterPc}
      → OwnSteps paused start ps
      → Among paused ps qs
      → OwnSteps paused start qs

-- `PauseController::default`.
abbrev pub init : System
init = record { paused = false; resuming = 0; waiters = [] }
