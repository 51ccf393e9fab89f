-- ===== src/Pause/Released.antt =====
-- No wakeup is lost: crates/pg-kinetic-proxy/src/ops/pause.rs.
use pg_kinetic.Pause.{
  WaiterPc, asking, seen, registered, called, parked, released, Move, pass, see_pause, register,
  pass_again, park, pass_called, go_round, Among, here, there, wake_all, System, Step, waiter,
  wait_if_paused, pause, resume, notify_waiters, Reachable, stay, step, OwnSteps, own_stay,
  own_step, init,
}
use pg_kinetic.Prelude.{
  ◌<◌, ◌≡◌, ◌≢◌, refl, Bool, true, false, ◌⊎◌, inl, inr, List, [], ◌∷◌, arith, All,
}

abbrev pub IsAwake : WaiterPc → Type 0
IsAwake p = p ≢ parked

abbrev pub IsReleased : WaiterPc → Type 0
IsReleased p = p ≡ released

-- A waiter may be asleep.
abbrev MayPark : System → Type 0
MayPark s = (s.paused ≡ true) ⊎ (0 < s.resuming)

abbrev Good : System → Type 0
Good s = MayPark s ⊎ All IsAwake s.waiters

Move-IsAwake : {paused : Bool} {p q : WaiterPc} → Move paused p q → (paused ≡ true) ⊎ IsAwake q
Move-IsAwake (pass _) = inr (ground arith)
Move-IsAwake (see_pause e) = inl e
Move-IsAwake register = inr (ground arith)
Move-IsAwake (pass_again _) = inr (ground arith)
Move-IsAwake (park e) = inl e
Move-IsAwake (pass_called _) = inr (ground arith)
Move-IsAwake (go_round e) = inl e

Among-IsAwake :
    {paused : Bool} {ps qs : List WaiterPc}
    → Among paused ps qs
    → All IsAwake ps
    → (paused ≡ true) ⊎ All IsAwake qs
Among-IsAwake (here m) (_, hs) = elim (Move-IsAwake m) [ inl e ↦ inl e | inr h ↦ inr (h, hs) ]
Among-IsAwake (there a) (h, hs) = elim (Among-IsAwake a hs) [ inl e ↦ inl e | inr k ↦ inr (h, k) ]

wake_all-IsAwake : (ps : List WaiterPc) → All IsAwake (wake_all ps)
wake_all-IsAwake [] = tt
wake_all-IsAwake (asking ∷ ps) = (ground arith, wake_all-IsAwake ps)
wake_all-IsAwake (seen ∷ ps) = (ground arith, wake_all-IsAwake ps)
wake_all-IsAwake (registered ∷ ps) = (ground arith, wake_all-IsAwake ps)
wake_all-IsAwake (called ∷ ps) = (ground arith, wake_all-IsAwake ps)
wake_all-IsAwake (parked ∷ ps) = (ground arith, wake_all-IsAwake ps)
wake_all-IsAwake (released ∷ ps) = (ground arith, wake_all-IsAwake ps)

Step-Good : {s t : System} → Step s t → Good s → Good t
Step-Good (waiter a) (inl m) = inl m
Step-Good (waiter a) (inr h) = elim (Among-IsAwake a h) [ inl e ↦ inl (inl e) | inr k ↦ inr k ]
Step-Good wait_if_paused (inl m) = inl m
Step-Good wait_if_paused (inr h) = inr (ground arith, h)
Step-Good pause g = inl (inl refl)
Step-Good resume g = inl (inr (omega arith))
Step-Good (notify_waiters {s} _) g = inr (wake_all-IsAwake s.waiters)

Reachable-Good : {s : System} → Reachable init s → Good s
Reachable-Good stay = inr tt
Reachable-Good (step r t) = Step-Good t (Reachable-Good r)

own_append :
    {paused : Bool} {ps qs rs : List WaiterPc}
    → OwnSteps paused ps qs
    → OwnSteps paused qs rs
    → OwnSteps paused ps rs
own_append a own_stay = a
own_append a (own_step b m) = own_step (own_append a b) m

own_there :
    {paused : Bool} {ps qs : List WaiterPc} (p : WaiterPc)
    → OwnSteps paused ps qs
    → OwnSteps paused (p ∷ ps) (p ∷ qs)
own_there p own_stay = own_stay
own_there p (own_step b m) = own_step (own_there p b) (there m)

-- A waiter that is awake gets back.
own_here :
    {paused : Bool} (p : WaiterPc) (ps : List WaiterPc)
    → paused ≡ false
    → IsAwake p
    → OwnSteps paused (p ∷ ps) (released ∷ ps)
own_here asking ps e h = own_step own_stay (here (pass e))
own_here seen ps e h = own_step (own_step own_stay (here register)) (here (pass_again e))
own_here registered ps e h = own_step own_stay (here (pass_again e))
own_here called ps e h = own_step own_stay (here (pass_called e))
own_here parked ps e h = absurd (h refl)
own_here released ps e h = own_stay

own_release :
    {paused : Bool} (ps : List WaiterPc)
    → paused ≡ false
    → All IsAwake ps
    → (qs : List WaiterPc) × (OwnSteps paused ps qs × All IsReleased qs)
own_release [] e h = ([], (own_stay, tt))
own_release (p ∷ ps) e (h, hs) =
    let (qs, (steps, all)) = own_release ps e hs in
    (released ∷ qs, (own_append (own_here p ps e h) (own_there released steps), (refl, all)))

-- When the traffic is not paused and no `resume` is still to notify, no wakeup is lost: every task
-- that waits gets back by steps of the waiters alone.
pub resumed_releases :
    {s : System}
    → Reachable init s
    → s.paused ≡ false
    → s.resuming ≡ 0
    → (ws : List WaiterPc) × (OwnSteps s.paused s.waiters ws × All IsReleased ws)
resumed_releases {s} r e z = elim (Reachable-Good r) [
  | inl (inl p) ↦ absurd (ground arith)
  | inl (inr p) ↦ absurd (omega arith)
  | inr h ↦ own_release s.waiters e h
]
