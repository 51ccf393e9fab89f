-- ===== src/Cancel/Wakeup.antt =====
-- The wait of `unbind` for a request that forwards (crates/pg-kinetic-proxy/src/cancel.rs).
use pg_kinetic.Prelude.{ℕ, false, ◌≡◌, refl, arith}
use pg_kinetic.Cancel.{CancelTarget}
use pg_kinetic.Cancel.System.{
  waiting, away, Shared, enter, take_lease, drop_lease, Step, request, notify, bind, unbind,
  see_busy, register, return_unbound, Reach, start, later,
}

-- The session waits, the flag is down, and no request is on its way.
pub record Stuck (s : Shared) : Type 0 where
  pub waits : s.owner ≡ waiting
  pub free : s.binding.forwarding ≡ false
  pub nobody : (i : ℕ) → s.requests i ≡ away

-- The session binds, a request takes its lease, `unbind` sees the flag; then the request drops the
-- lease and notifies before the session has made its `Notified`.
missed : (t : CancelTarget) → (s : Shared) × (Reach s × Stuck s)
missed t =
    let bound = later start (bind t refl) in
    let won = later bound (request 0 (enter refl)) in
    let holds = later won (request 0 (take_lease refl)) in
    let seen = later (later holds (unbind refl)) (see_busy refl refl) in
    let dropped = later (later seen (request 0 drop_lease)) (notify 0 refl) in
    let registered = later dropped (register refl) in
    (_, (registered, record { waits = refl; free = refl; nobody = λ i. ground arith }))

-- From there the session waits whatever step comes next, and it does not wake on its own.
stays : (s t : Shared) → Stuck s → Step s t → t.owner ≡ waiting
stays s t h (request i move) = h.waits
stays s t h (notify i at) = ground (arith, h.nobody i, at)
stays s t h (bind x at) = h.waits
stays s t h (unbind at) = ground (arith, h.waits, at)
stays s t h (see_busy at busy) = ground (arith, h.waits, at)
stays s t h (register at) = refl
stays s t h (return_unbound at free) = ground (arith, h.waits, at)

-- For any target there is a reachable state in which the session waits in `unbind` although the flag
-- is down and no request is on its way, and every next step leaves it waiting.
pub unbind_misses_wakeup :
    (t : CancelTarget)
    → (s : Shared) × (Reach s × (Stuck s × ((next : Shared) → Step s next → next.owner ≡ waiting)))
unbind_misses_wakeup t =
    let (s, (reached, stuck)) = missed t in (s, (reached, (stuck, λ next. stays s next stuck)))
