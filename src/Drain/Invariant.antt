-- ===== src/Drain/Invariant.antt =====
-- The counter of the clients, and what the end of a drain means:
-- crates/pg-kinetic-proxy/src/ops/drain.rs.
use pg_kinetic.Drain.{
  Orderings, DrainState, accepting, ClientPc, counted, refused, inside, watching, completed, check,
  count, enter, refuse, uncount, drop_guard, Among, here, there, System, Step, client, begin_drain,
  set_deadline, finish_drain, see_start, take_deadline, see_none, see_some, notified, expire,
  Reachable, stay, step, outsiders, init,
}
use pg_kinetic.Prelude.{ℕ, zero, suc, ◌+◌, ◌≡◌, ◌≢◌, refl, sym, ◌⊎◌, List, [], ◌∷◌, arith}

-- Whether the counter counts a client, and whether it holds a guard.
abbrev pub weight : ClientPc → ℕ
weight counted = 1
weight refused = 1
weight inside = 1
weight _ = 0

abbrev pub guards : ClientPc → ℕ
guards inside = 1
guards _ = 0

abbrev pub sum_of : (ClientPc → ℕ) → List ClientPc → ℕ
sum_of f [] = 0
sum_of f (p ∷ ps) = f p + sum_of f ps

outsiders-weight : (n : ℕ) → sum_of weight (outsiders n) ≡ 0
outsiders-weight zero = refl
outsiders-weight (suc n) = omega (arith, outsiders-weight n)

-- A step of a client changes the counter as it changes the sum, with `k` for the others.
Among-weight :
    {o : Orderings} {state : DrainState} {n m : ℕ} {ps qs : List ClientPc} (k : ℕ)
    → Among o state n ps m qs
    → n ≡ k + sum_of weight ps
    → m ≡ k + sum_of weight qs
Among-weight k (here (check _)) h = omega arith
Among-weight k (here count) h = omega arith
Among-weight k (here (enter _)) h = omega arith
Among-weight k (here (refuse _ _)) h = omega arith
Among-weight k (here uncount) h = omega arith
Among-weight k (here drop_guard) h = omega arith
Among-weight k (there {p} a) h = omega (arith, Among-weight (k + weight p) a (omega arith))

counts-Step :
    {o : Orderings} {s t : System}
    → Step o s t
    → s.active_clients ≡ sum_of weight s.clients
    → t.active_clients ≡ sum_of weight t.clients
counts-Step (client {s} a) h = omega (arith, Among-weight 0 a (omega (arith, h)))
counts-Step (begin_drain _ _) h = h
counts-Step (set_deadline _ _) h = h
counts-Step finish_drain h = h
counts-Step (see_start _ _ _) h = h
counts-Step (take_deadline _) h = h
counts-Step (see_none _ _) h = h
counts-Step (see_some _ _ _) h = h
counts-Step (notified _) h = h
counts-Step (expire _) h = h

-- With either ordering, the counter is the number of clients between their increment and their
-- decrement.
pub active_clients_count :
    (o : Orderings) (n : ℕ) {s : System}
    → Reachable o (init n) s
    → s.active_clients ≡ sum_of weight s.clients
active_clients_count o n stay = sym (outsiders-weight n)
active_clients_count o n (step r t) = counts-Step t (active_clients_count o n r)

record Inv (s : System) : Type 0 where
  not_before : (s.wait ≡ watching) ⊎ (s.state ≢ accepting)
  empty : (s.wait ≢ completed) ⊎ (sum_of guards s.clients ≡ 0)
