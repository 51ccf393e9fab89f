-- ===== src/Cancel/System.antt =====
-- A `CancelBinding` that the session of its key and any number of cancel requests use at once
-- (crates/pg-kinetic-proxy/src/cancel.rs), one shared access at a time and in any order.
use pg_kinetic.Prelude.{ℕ, true, false, none, some, List, [], ◌∷◌, ◌≡◌, ◌==◌, if◌then◌else◌}
use pg_kinetic.Cancel.{CancelTarget, CancelBinding, unbound}

-- Where the session stands in `unbind`; it is `idle` outside of it.
pub data OwnerPc : Type 0 where
  idle : OwnerPc
  checking : OwnerPc  -- at the head of the loop
  seen_busy : OwnerPc  -- has loaded `true`, before `notified()`
  waiting : OwnerPc  -- its `Notified` is registered

-- Where a cancel request stands.
pub data RequestPc : Type 0 where
  away : RequestPc  -- before `acquire_forwarding`, or done
  entered : RequestPc  -- won the compare-exchange
  leased : CancelTarget → RequestPc  -- holds a `CancelForwardingLease`
  released : RequestPc  -- has stored `false`, before `notify_waiters`

-- `bound_since` is not in the code: the targets that the session bound since its last `unbind`
-- returned.
pub record Shared : Type 0 where
  pub binding : CancelBinding
  pub owner : OwnerPc
  pub requests : ℕ → RequestPc
  pub bound_since : List CancelTarget

abbrev pub update : (ℕ → RequestPc) → ℕ → RequestPc → ℕ → RequestPc
update f i pc j = if i == j then pc else f j

-- A waiter that is registered goes on; no other is woken.
abbrev pub notify_waiters : OwnerPc → OwnerPc
notify_waiters OwnerPc.waiting = OwnerPc.checking
notify_waiters pc = pc

-- A step of one request: the binding and its place before and after.
pub data RequestMove (b : CancelBinding) : RequestPc → CancelBinding → RequestPc → Type 0 where
  refuse : b.forwarding ≡ true → RequestMove b away b away
  enter : b.forwarding ≡ false → RequestMove b away (record b { forwarding = true }) entered
  take_lease : {t : CancelTarget} → b.target ≡ some t → RequestMove b entered b (leased t)
  give_up : b.target ≡ none → RequestMove b entered (record b { forwarding = false }) released
  drop_lease :
      {t : CancelTarget} → RequestMove b (leased t) (record b { forwarding = false }) released

pub data Step (s : Shared) : Shared → Type 0 where
  request :
      (i : ℕ) {b : CancelBinding} {pc : RequestPc}
      → RequestMove s.binding (s.requests i) b pc
      → Step s (record s { binding = b; requests = update s.requests i pc })
  notify :
      (i : ℕ)
      → s.requests i ≡ released
      → Step s (record s { owner = notify_waiters s.owner; requests = update s.requests i away })
  bind :
      (t : CancelTarget)
      → s.owner ≡ idle
      → Step s (record s {
        binding = record s.binding { target = some t };
        bound_since = t ∷ s.bound_since;
      })
  unbind :
      s.owner ≡ idle
      → Step s (record s { binding = record s.binding { target = none }; owner = checking })
  see_busy :
      s.owner ≡ checking → s.binding.forwarding ≡ true → Step s (record s { owner = seen_busy })
  register : s.owner ≡ seen_busy → Step s (record s { owner = waiting })
  return_unbound :
      s.owner ≡ checking
      → s.binding.forwarding ≡ false
      → Step s (record s { owner = idle; bound_since = [] })

-- After `issue_client_key`.
abbrev pub init : Shared
init = record { binding = unbound; owner = idle; requests = λ _. away; bound_since = [] }

pub data Reach : Shared → Type 0 where
  start : Reach init
  later : {s t : Shared} → Reach s → Step s t → Reach t
