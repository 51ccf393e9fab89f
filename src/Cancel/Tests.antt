-- ===== src/Cancel/Tests.antt =====
-- The cancel registry at concrete inputs.
use pg_kinetic.Prelude.{Option, some, List, [], ◌∷◌, ◌≡◌, refl, Bytes, codes}
use pg_kinetic.Prelude.Tables.{get, erase}
use pg_kinetic.Cancel.{CancelTarget, CancelRegistry, Key, unbound, issued, issue_client_key}
use pg_kinetic.Cancel.System.{
  Shared, waiting, enter, take_lease, Step, request, bind as bind_step, unbind, Reach, start, later,
}
use pg_kinetic.Cancel.Invariant.{Among, lease-Among}
use pg_kinetic.Cancel.Wakeup.{Stuck, unbind_misses_wakeup}

abbrev backend : CancelTarget
backend = record { backend_addr = codes "127.0.0.1:5432"; process_id = 77; secret_key = 9 }

abbrev two_clients : CancelRegistry
two_clients = ((5, 6), unbound) ∷ ((7, 8), unbound) ∷ []

-- A digest that repeats its input.
abbrev repeated : Bytes → Bytes
repeated [] = []
repeated (b ∷ _) = b ∷ 0 ∷ 0 ∷ b ∷ 0 ∷ 0 ∷ 0 ∷ b ∷ []

-- The first nonce gives the process id 0, and another is drawn.
abbrev drawn : List (Option Bytes)
drawn = some (0 ∷ []) ∷ some (130 ∷ []) ∷ []

abbrev drawn_key : Key
drawn_key = (0x02000082, 130)

issued_drawn :
    issue_client_key repeated drawn two_clients
    ≡ some (issued drawn_key ((drawn_key, unbound) ∷ two_clients))
unfolding issue_client_key get erase
issued_drawn = refl

-- After the session has bound `backend` and the request of index 4 has its lease.
abbrev one_lease : (s : Shared) × Reach s
one_lease = (
  _,
  later (later (later start (bind_step backend refl)) (request 4 (enter refl)))
      (request 4 (take_lease refl)),
)

lease-Among_example : Among backend one_lease.0.bound_since
lease-Among_example = lease-Among one_lease.0 4 backend one_lease.1 refl

abbrev unbinding : (s : Shared) × Reach s
unbinding = (_, later (later start (bind_step backend refl)) (unbind refl))

unbind_misses_wakeup_example :
    (s : Shared) × (Reach s × (Stuck s × ((next : Shared) → Step s next → next.owner ≡ waiting)))
unbind_misses_wakeup_example = unbind_misses_wakeup backend
