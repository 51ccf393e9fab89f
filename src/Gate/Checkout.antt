-- ===== src/Gate/Checkout.antt =====
-- Checkouts from one gate at the same time, one shared access at a time and in any order
-- (crates/pg-kinetic-core/src/traffic/backpressure.rs).
use pg_kinetic.Prelude.{
  ℕ, zero, suc, ◌+◌, ◌-◌, ◌≤◌, ◌<◌, Option, none, some, List, [], ◌∷◌, get_elem?, ◌≡◌,
}
use pg_kinetic.Gate.{BackpressureError, queue_full, timeout, BackpressureGate, limit, set_limit}

-- Where a checkout stands.
pub data CheckoutPc : Type 0 where
  ready : CheckoutPc  -- at the head of the loop
  loaded : ℕ → CheckoutPc  -- with what it loaded from `in_flight`, before it loads the limit
  acquiring : CheckoutPc  -- saw `in_flight` below the limit
  queueing : CheckoutPc  -- got no permit, before `waiters.fetch_add`
  joined : ℕ → CheckoutPc  -- with what `fetch_add` returned
  awaiting : CheckoutPc  -- in `acquire_owned`
  acquired : CheckoutPc  -- has the permit, before `waiters.fetch_sub`
  permitted : CheckoutPc  -- before `in_flight.fetch_add`
  counted : ℕ → CheckoutPc  -- with what `fetch_add` returned
  holding : CheckoutPc  -- has a `BackpressurePermit`
  backing_out : CheckoutPc  -- above the limit, before `in_flight.fetch_sub`
  returning : CheckoutPc  -- before `drop(permit)`
  pausing : CheckoutPc  -- start of `wait_for_capacity_change`
  pause_joined : ℕ → CheckoutPc
  paused : CheckoutPc  -- in its `timeout_at`
  leaving : Option BackpressureError → CheckoutPc  -- before `waiters.fetch_sub`
  failed : BackpressureError → CheckoutPc
  dropping : CheckoutPc  -- in `Drop`, after `in_flight.fetch_sub`
  gone : CheckoutPc

-- Nothing closes the semaphore, so `TryAcquireError::Closed` does not come up.
pub data Move (g : BackpressureGate) : CheckoutPc → BackpressureGate → CheckoutPc → Type 0 where
  load : Move g ready g (loaded g.in_flight)
  below_limit : {p : ℕ} → p < limit g → Move g (loaded p) g acquiring
  at_limit : {p : ℕ} → limit g ≤ p → Move g (loaded p) g pausing
  try_acquire : 0 < g.permits → Move g acquiring (record g { permits = g.permits - 1 }) permitted
  no_permits : g.permits ≡ 0 → Move g acquiring g queueing
  join : Move g queueing (record g { waiters = g.waiters + 1 }) (joined g.waiters)
  join_full : {p : ℕ} → g.max_waiters ≤ p → Move g (joined p) g (leaving (some queue_full))
  join_waits : {p : ℕ} → p < g.max_waiters → Move g (joined p) g awaiting
  acquire : 0 < g.permits → Move g awaiting (record g { permits = g.permits - 1 }) acquired
  acquire_timeout : Move g awaiting g (leaving (some timeout))
  leave_queue : Move g acquired (record g { waiters = g.waiters - 1 }) permitted
  count : Move g permitted (record g { in_flight = g.in_flight + 1 }) (counted g.in_flight)
  grant : {p : ℕ} → p < limit g → Move g (counted p) g holding
  refuse : {p : ℕ} → limit g ≤ p → Move g (counted p) g backing_out
  uncount : Move g backing_out (record g { in_flight = g.in_flight - 1 }) returning
  give_back : Move g returning (record g { permits = g.permits + 1 }) pausing
  pause : Move g pausing (record g { waiters = g.waiters + 1 }) (pause_joined g.waiters)
  pause_full : {p : ℕ} → g.max_waiters ≤ p → Move g (pause_joined p) g (leaving (some queue_full))
  pause_waits : {p : ℕ} → p < g.max_waiters → Move g (pause_joined p) g paused
  pause_ends : Move g paused g (leaving none)
  pause_timeout : Move g paused g (leaving (some timeout))
  leave_retry : Move g (leaving none) (record g { waiters = g.waiters - 1 }) ready
  leave_failed :
      {e : BackpressureError}
      → Move g (leaving (some e)) (record g { waiters = g.waiters - 1 }) (failed e)
  release : Move g holding (record g { in_flight = g.in_flight - 1 }) dropping
  released : Move g dropping (record g { permits = g.permits + 1 }) gone
  -- The future of the checkout is dropped where it awaits.
  abandon_queue : Move g awaiting g gone
  abandon_pause : Move g paused g gone

pub record Checkouts : Type 0 where
  pub gate : BackpressureGate
  pub tasks : List CheckoutPc

abbrev pub set {ℓ} : {A : Type ℓ} → List A → ℕ → A → List A
set [] i y = []
set (x ∷ xs) zero y = y ∷ xs
set (x ∷ xs) (suc i) y = x ∷ set xs i y

pub data Step (s : Checkouts) : Checkouts → Type 0 where
  checkout : Step s (record s { tasks = ready ∷ s.tasks })
  move :
      (i : ℕ) {x y : CheckoutPc} {g : BackpressureGate}
      → get_elem? s.tasks i ≡ some x
      → Move s.gate x g y
      → Step s (record { gate = g; tasks = set s.tasks i y })
  change_limit : (value : ℕ) → Step s (record s { gate = set_limit s.gate value })

pub data Reach (gate : BackpressureGate) : Checkouts → Type 0 where
  start : Reach gate (record { gate = gate; tasks = [] })
  later : {s t : Checkouts} → Reach gate s → Step s t → Reach gate t
