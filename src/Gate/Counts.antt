-- ===== src/Gate/Counts.antt =====
-- How many checkouts stand where, after one of them has moved
-- (crates/pg-kinetic-core/src/traffic/backpressure.rs).
use pg_kinetic.Prelude.{
  ℕ, zero, suc, ◌+◌, ◌≤◌, some, List, [], ◌∷◌, get_elem?, if◌then◌else◌, ltb, ◌≡◌, refl, arith,
}
use pg_kinetic.Gate.{BackpressureGate}
use pg_kinetic.Gate.Checkout.{
  CheckoutPc, joined, awaiting, acquired, permitted, counted, holding, backing_out, returning,
  pause_joined, paused, leaving, dropping, Move, below_limit, try_acquire, join_full, join_waits,
  acquire, pause_full, pause_waits, set,
}

module _ {ℓ} {A : Type ℓ} (weight : A → ℕ) where
  abbrev pub total : List A → ℕ
  total [] = 0
  total (x ∷ xs) = weight x + total xs

  pub total-set :
      (xs : List A) (i : ℕ) (x y : A)
      → get_elem? xs i ≡ some x
      → total (set xs i y) + weight x ≡ total xs + weight y
  total-set [] i x y h = cc
  total-set (z ∷ xs) zero x y h = ground (arith, h)
  total-set (z ∷ xs) (suc i) x y h = omega (arith, total-set xs i x y h)

pub total_mono {ℓ} :
    {A : Type ℓ} (v w : A → ℕ) → ((x : A) → v x ≤ w x) → (xs : List A) → total v xs ≤ total w xs
total_mono v w h [] = omega arith
total_mono v w h (x ∷ xs) = omega (arith, h x, total_mono v w h xs)

-- 1 for a checkout that has a permit of the semaphore.
abbrev pub has_permit : CheckoutPc → ℕ
has_permit acquired = 1
has_permit permitted = 1
has_permit (counted _) = 1
has_permit holding = 1
has_permit backing_out = 1
has_permit returning = 1
has_permit dropping = 1
has_permit _ = 0

-- 1 for a checkout that `in_flight` counts.
abbrev pub is_counted : CheckoutPc → ℕ
is_counted (counted _) = 1
is_counted holding = 1
is_counted backing_out = 1
is_counted _ = 0

-- 1 for a checkout that `waiters` counts.
abbrev pub is_waiter : CheckoutPc → ℕ
is_waiter (joined _) = 1
is_waiter awaiting = 1
is_waiter acquired = 1
is_waiter (pause_joined _) = 1
is_waiter paused = 1
is_waiter (leaving _) = 1
is_waiter _ = 0

-- 1 for a checkout that waits, or has joined below the bound `m` and will.
abbrev pub is_waiting : ℕ → CheckoutPc → ℕ
is_waiting m (joined p) = if ltb p m then 1 else 0
is_waiting m awaiting = 1
is_waiting m acquired = 1
is_waiting m (pause_joined p) = if ltb p m then 1 else 0
is_waiting m paused = 1
is_waiting m _ = 0

waiting_le : (m : ℕ) (x : CheckoutPc) → is_waiting m x ≤ is_waiter x
waiting_le m (joined p) = ground arith
waiting_le m (pause_joined p) = ground arith
waiting_le m _ = omega arith

pub total_le : (m : ℕ) (xs : List CheckoutPc) → total (is_waiting m) xs ≤ total is_waiter xs
total_le m = total_mono (is_waiting m) is_waiter (waiting_le m)

-- What the counters say of the checkouts: `h` with a permit, `c` counted, `w` waiters, `s` waiting.
pub record Balanced (g : BackpressureGate) (h c w s : ℕ) : Type 0 where
  pub permits : g.permits + h ≡ g.max_in_flight
  pub in_flight : g.in_flight ≡ c
  pub waiters : w ≤ g.waiters
  pub waiting : s ≤ g.max_waiters

pub Move-bounds :
    (g g' : BackpressureGate) (x y : CheckoutPc)
    → Move g x g' y
    → (g'.max_in_flight ≡ g.max_in_flight) × (g'.max_waiters ≡ g.max_waiters)
Move-bounds g g' x y (below_limit _) = (refl, refl)
Move-bounds g g' x y _ = (refl, refl)

pub Move-Balanced :
    (g g' : BackpressureGate) (x y : CheckoutPc) (h c w s h' c' w' s' : ℕ)
    → Move g x g' y
    → Balanced g h c w s
    → h' + has_permit x ≡ h + has_permit y
    → c' + is_counted x ≡ c + is_counted y
    → w' + is_waiter x ≡ w + is_waiter y
    → s' + is_waiting g.max_waiters x ≡ s + is_waiting g.max_waiters y
    → s ≤ w
    → Balanced g' h' c' w' s'
Move-Balanced g g' x y h c w s h' c' w' s' (try_acquire l) b eh ec ew es sw = record {
  permits = omega (arith, b.permits, l);
  in_flight = omega (arith, b.in_flight);
  waiters = omega (arith, b.waiters);
  waiting = ground (arith, b.waiting, b.waiters, sw);
}
Move-Balanced g g' x y h c w s h' c' w' s' (acquire l) b eh ec ew es sw = record {
  permits = omega (arith, b.permits, l);
  in_flight = omega (arith, b.in_flight);
  waiters = omega (arith, b.waiters);
  waiting = ground (arith, b.waiting, b.waiters, sw);
}
Move-Balanced g g' x y h c w s h' c' w' s' (join_full l) b eh ec ew es sw = record {
  permits = omega (arith, b.permits);
  in_flight = omega (arith, b.in_flight);
  waiters = omega (arith, b.waiters);
  waiting = ground (arith, b.waiting, b.waiters, sw, l);
}
Move-Balanced g g' x y h c w s h' c' w' s' (join_waits l) b eh ec ew es sw = record {
  permits = omega (arith, b.permits);
  in_flight = omega (arith, b.in_flight);
  waiters = omega (arith, b.waiters);
  waiting = ground (arith, b.waiting, b.waiters, sw, l);
}
Move-Balanced g g' x y h c w s h' c' w' s' (pause_full l) b eh ec ew es sw = record {
  permits = omega (arith, b.permits);
  in_flight = omega (arith, b.in_flight);
  waiters = omega (arith, b.waiters);
  waiting = ground (arith, b.waiting, b.waiters, sw, l);
}
Move-Balanced g g' x y h c w s h' c' w' s' (pause_waits l) b eh ec ew es sw = record {
  permits = omega (arith, b.permits);
  in_flight = omega (arith, b.in_flight);
  waiters = omega (arith, b.waiters);
  waiting = ground (arith, b.waiting, b.waiters, sw, l);
}
Move-Balanced g g' x y h c w s h' c' w' s' _ b eh ec ew es sw = record {
  permits = omega (arith, b.permits);
  in_flight = omega (arith, b.in_flight);
  waiters = omega (arith, b.waiters);
  waiting = ground (arith, b.waiting, b.waiters, sw);
}
