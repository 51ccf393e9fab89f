-- ===== src/Cancel/Invariant.antt =====
-- What holds of a shared binding whatever the order of the steps
-- (crates/pg-kinetic-proxy/src/cancel.rs).
use pg_kinetic.Prelude.{
  ℕ, Bool, true, false, none, some, List, [], ◌∷◌, ◌≡◌, ◌≢◌, refl, arith, ◌⊎◌, inl, inr,
}
use pg_kinetic.Cancel.{CancelTarget, CancelBinding}
use pg_kinetic.Cancel.System.{
  OwnerPc, idle, checking, seen_busy, waiting, RequestPc, away, entered, leased, released, Shared,
  update, notify_waiters, RequestMove, refuse, enter, take_lease, give_up, drop_lease, Step,
  request, notify, bind, unbind, see_busy, register, return_unbound, init, Reach, start, later,
}

-- Between the compare-exchange that a request won and the store that gives it back.
abbrev pub owns : RequestPc → Bool
owns entered = true
owns (leased _) = true
owns _ = false

abbrev pub Among : CancelTarget → List CancelTarget → Type 0
Among t [] = ⊥
Among t (x ∷ xs) = (t ≡ x) ⊎ Among t xs

abbrev is_idle : OwnerPc → Bool
is_idle idle = true
is_idle _ = false

-- The holder of the flag is one, and what a request may forward to is what the session bound.
pub record Good (s : Shared) : Type 0 where
  held : (i : ℕ) → owns (s.requests i) ≡ true → s.binding.forwarding ≡ true
  one : (i j : ℕ) → owns (s.requests i) ≡ true → owns (s.requests j) ≡ true → i ≡ j
  lease : (i : ℕ) (t : CancelTarget) → s.requests i ≡ leased t → Among t s.bound_since
  target : (t : CancelTarget) → s.binding.target ≡ some t → Among t s.bound_since
  cleared : is_idle s.owner ≡ false → s.binding.target ≡ none

init-Good : Good init
init-Good = record {
  held = λ i h. ground (arith, h);
  one = λ i j hi hj. ground (arith, hi);
  lease = λ i t h. ground (arith, h);
  target = λ t h. ground (arith, h);
  cleared = λ h. refl;
}

request-Good :
    (s : Shared) (i : ℕ) (b : CancelBinding) (pc now : RequestPc)
    → Good s
    → s.requests i ≡ now
    → RequestMove s.binding now b pc
    → Good (record s { binding = b; requests = update s.requests i pc })
request-Good s i b pc now g at (refuse busy) = record {
  held = λ j h. ground (arith, g.held j, at, h, busy);
  one = λ j k hj hk.
      ground (arith, g.one j k, g.one i k, g.one j i, g.held j, g.held k, at, hj, hk, busy);
  lease = λ j t h. ground (arith, g.lease j t, g.target t, at, h, busy);
  target = g.target;
  cleared = g.cleared;
}
request-Good s i b pc now g at (enter free) = record {
  held = λ j h. ground (arith, g.held j, at, h, free);
  one = λ j k hj hk.
      ground (arith, g.one j k, g.one i k, g.one j i, g.held j, g.held k, at, hj, hk, free);
  lease = λ j t h. ground (arith, g.lease j t, g.target t, at, h, free);
  target = g.target;
  cleared = g.cleared;
}
request-Good s i b pc now g at (take_lease bound) = record {
  held = λ j h. ground (arith, g.held j, at, h, bound);
  one = λ j k hj hk.
      ground (arith, g.one j k, g.one i k, g.one j i, g.held j, g.held k, at, hj, hk, bound);
  lease = λ j t h. ground (arith, g.lease j t, g.target t, at, h, bound);
  target = g.target;
  cleared = g.cleared;
}
request-Good s i b pc now g at (give_up none_bound) = record {
  held = λ j h. ground (arith, g.held j, g.one i j, at, h, none_bound);
  one = λ j k hj hk.
      ground (arith, g.one j k, g.one i k, g.one j i, g.held j, g.held k, at, hj, hk, none_bound);
  lease = λ j t h. ground (arith, g.lease j t, g.target t, at, h, none_bound);
  target = g.target;
  cleared = g.cleared;
}
request-Good s i b pc now g at drop_lease = record {
  held = λ j h. ground (arith, g.held j, g.one i j, at, h);
  one =
      λ j k hj hk. ground (arith, g.one j k, g.one i k, g.one j i, g.held j, g.held k, at, hj, hk);
  lease = λ j t h. ground (arith, g.lease j t, g.target t, at, h);
  target = g.target;
  cleared = g.cleared;
}

-- A store of `false` is behind the request that notifies, so its place alone changes.
notify-Good :
    (s : Shared) (i : ℕ)
    → Good s
    → s.requests i ≡ released
    → Good (record s { owner = notify_waiters s.owner; requests = update s.requests i away })
notify-Good s i g at = record {
  held = λ j h. ground (arith, g.held j, at, h);
  one = λ j k hj hk. ground (arith, g.one j k, hj, hk);
  lease = λ j t h. ground (arith, g.lease j t, h);
  target = g.target;
  cleared = λ h. g.cleared (woken s.owner h);
}
  where
    woken : (pc : OwnerPc) → is_idle (notify_waiters pc) ≡ false → is_idle pc ≡ false
    woken idle h = h
    woken checking h = h
    woken seen_busy h = h
    woken waiting h = refl

Step-Good : (s t : Shared) → Good s → Step s t → Good t
Step-Good s t g (request i move) = request-Good s i _ _ (s.requests i) g refl move
Step-Good s t g (notify i at) = notify-Good s i g at
Step-Good s t g (bind x at) = record {
  held = g.held;
  one = g.one;
  lease = λ i t h. inr (g.lease i t h);
  target = λ t h. inl (ground (arith, h));
  cleared = λ h. ground (arith, at, h);
}
Step-Good s t g (unbind at) = record {
  held = g.held;
  one = g.one;
  lease = g.lease;
  target = λ t h. ground (arith, h);
  cleared = λ h. refl;
}
Step-Good s t g (see_busy at busy) = record {
  held = g.held;
  one = g.one;
  lease = g.lease;
  target = g.target;
  cleared = λ h. g.cleared (ground (arith, at));
}
Step-Good s t g (register at) = record {
  held = g.held;
  one = g.one;
  lease = g.lease;
  target = g.target;
  cleared = λ h. g.cleared (ground (arith, at));
}
Step-Good s t g (return_unbound at free) = record {
  held = g.held;
  one = g.one;
  lease = λ i t h. ground (arith, g.held i, free, h);
  target = λ t h. ground (arith, g.cleared, at, h);
  cleared = λ h. ground (arith, h);
}

pub Reach-Good : (s : Shared) → Reach s → Good s
Reach-Good s start = init-Good
Reach-Good t (later {s} r step) = Step-Good s t (Reach-Good s r) step

-- Whatever the order in which the session and the requests run, a request that holds a lease
-- forwards to a target that the session bound since its last `unbind` returned.
pub lease-Among :
    (s : Shared) (i : ℕ) (t : CancelTarget)
    → Reach s
    → s.requests i ≡ leased t
    → Among t s.bound_since
lease-Among s i t r h = (Reach-Good s r).lease i t h

-- In a reachable state in which `unbind` is about to return, having found the flag down, no
-- request holds a lease.
pub no_lease_when_unbind_returns :
    (s : Shared) (i : ℕ) (t : CancelTarget)
    → Reach s
    → s.owner ≡ checking
    → s.binding.forwarding ≡ false
    → s.requests i ≢ leased t
no_lease_when_unbind_returns s i t r at free h = ground (arith, (Reach-Good s r).held i, free, h)

-- Two requests are never between the compare-exchange and the store of `false` at once.
pub one_forwards :
    (s : Shared) (i j : ℕ)
    → Reach s
    → owns (s.requests i) ≡ true
    → owns (s.requests j) ≡ true
    → i ≡ j
one_forwards s i j r = (Reach-Good s r).one i j
