-- ===== src/Drain.antt =====
-- crates/pg-kinetic-proxy/src/ops/drain.rs: the drain of the clients, as steps of the clients, of
-- the task that begins the drain and of the one that waits for its end, which interleave. Times are
-- left out: a deadline is a number that is there or not, and may pass at any time. Two orderings of
-- the atomics are modelled. With acquire and release, those of the source, a load gives the last value
-- or an older one; an exchange, an addition and a subtraction act on the last value. Which older
-- values a task can no longer load is left open. With sequential consistency a load gives the last.
pub mod Invariant
pub mod Early
pub mod Late
mod Tests
use pg_kinetic.Prelude.{
  ℕ, zero, suc, ◌+◌, ◌-◌, ◌<◌, ◌≡◌, ◌≢◌, ◌⊎◌, Option, none, some, List, [], ◌∷◌,
}

pub data DrainState : Type 0 where
  accepting draining drained : DrainState

pub data Orderings : Type 0 where
  acquire_release seq_cst : Orderings

-- A value that the state had before it got another; it never goes back.
abbrev pub Earlier : DrainState → DrainState → Type 0
Earlier draining accepting = Unit
Earlier drained accepting = Unit
Earlier drained draining = Unit
Earlier _ _ = ⊥

-- What a load of the state may give.
abbrev pub Loads : Orderings → DrainState → DrainState → Type 0
Loads acquire_release state seen = (seen ≡ state) ⊎ Earlier state seen
Loads seq_cst state seen = seen ≡ state

abbrev pub Was : ℕ → List ℕ → Type 0
Was k [] = ⊥
Was k (n ∷ ns) = (k ≡ n) ⊎ Was k ns

-- What a load of the counter may give, with the values that it had before.
abbrev pub LoadsCount : Orderings → ℕ → List ℕ → ℕ → Type 0
LoadsCount acquire_release n past seen = (seen ≡ n) ⊎ Was seen past
LoadsCount seq_cst n past seen = seen ≡ n

-- The places of a client in `try_enter_client`, and then with its guard.
pub data ClientPc : Type 0 where
  outside checked counted refused inside : ClientPc

-- The places of a task in `begin_drain`; `began` is between the exchange and the deadline.
pub data BeginPc : Type 0 where
  not_begun began over : BeginPc

-- The places of the task that goes from `wait_for_drain_start` to `wait_for_completion`.
pub data WaitPc : Type 0 where
  watching started looping waiting completed timed_out panicked : WaitPc

-- A step of a client, with the counter before and after it.
pub data Move (orderings : Orderings) (state : DrainState)
    : ℕ → ClientPc → ℕ → ClientPc → Type 0 where
  check : {n : ℕ} → Loads orderings state accepting → Move orderings state n outside n checked
  count : {n : ℕ} → Move orderings state n checked (n + 1) counted
  enter : {n : ℕ} → Loads orderings state accepting → Move orderings state n counted n inside
  refuse :
      {n : ℕ} {seen : DrainState}
      → Loads orderings state seen
      → seen ≢ accepting
      → Move orderings state n counted n refused
  uncount : {n : ℕ} → Move orderings state n refused (n - 1) outside
  drop_guard : {n : ℕ} → Move orderings state n inside (n - 1) outside

-- A step of one of the clients.
pub data Among (orderings : Orderings) (state : DrainState)
    : ℕ → List ClientPc → ℕ → List ClientPc → Type 0 where
  here :
      {n m : ℕ} {p q : ClientPc} {ps : List ClientPc}
      → Move orderings state n p m q
      → Among orderings state n (p ∷ ps) m (q ∷ ps)
  there :
      {n m : ℕ} {p : ClientPc} {ps qs : List ClientPc}
      → Among orderings state n ps m qs
      → Among orderings state n (p ∷ ps) m (p ∷ qs)

pub record System : Type 0 where
  pub state : DrainState
  pub active_clients : ℕ
  pub past : List ℕ  -- the values before each step of a client, the last first
  pub drain_deadline : Option ℕ
  pub clients : List ClientPc
  pub begin : BeginPc
  pub wait : WaitPc

-- `wait_for_completion` takes the deadline, and panics where there is none.
abbrev pub after_deadline : Option ℕ → WaitPc
after_deadline none = panicked
after_deadline (some deadline) = looping

pub data Step (orderings : Orderings) : System → System → Type 0 where
  client :
      {s : System} {n : ℕ} {clients : List ClientPc}
      → Among orderings s.state s.active_clients s.clients n clients
      → Step orderings s
          (record s { active_clients = n; past = s.active_clients ∷ s.past; clients = clients })
  begin_drain :
      {s : System}
      → s.begin ≡ not_begun
      → s.state ≡ accepting
      → Step orderings s (record s { state = draining; begin = began })
  set_deadline :
      {s : System} (deadline : ℕ)
      → s.begin ≡ began
      → Step orderings s (record s { drain_deadline = some deadline; begin = over })
  finish_drain : {s : System} → Step orderings s (record s { state = drained })
  see_start :
      {s : System} {seen : DrainState}
      → s.wait ≡ watching
      → Loads orderings s.state seen
      → seen ≢ accepting
      → Step orderings s (record s { wait = started })
  take_deadline :
      {s : System}
      → s.wait ≡ started
      → Step orderings s (record s { wait = after_deadline s.drain_deadline })
  see_none :
      {s : System}
      → s.wait ≡ looping
      → LoadsCount orderings s.active_clients s.past 0
      → Step orderings s (record s { wait = completed })
  see_some :
      {s : System} {seen : ℕ}
      → s.wait ≡ looping
      → LoadsCount orderings s.active_clients s.past seen
      → seen ≢ 0
      → Step orderings s (record s { wait = waiting })
  notified : {s : System} → s.wait ≡ waiting → Step orderings s (record s { wait = looping })
  expire : {s : System} → s.wait ≡ waiting → Step orderings s (record s { wait = timed_out })

pub data Reachable (orderings : Orderings) (start : System) : System → Type 0 where
  stay : Reachable orderings start start
  step :
      {s t : System}
      → Reachable orderings start s
      → Step orderings s t
      → Reachable orderings start t

abbrev pub outsiders : ℕ → List ClientPc
outsiders zero = []
outsiders (suc n) = outside ∷ outsiders n

-- `DrainController::new`, with some clients at the door.
abbrev pub init : ℕ → System
init n = record {
  state = accepting;
  active_clients = 0;
  past = [];
  drain_deadline = none;
  clients = outsiders n;
  begin = not_begun;
  wait = watching;
}
