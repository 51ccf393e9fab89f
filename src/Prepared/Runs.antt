-- ===== src/Prepared/Runs.antt =====
-- Every method that changes a catalog (crates/pg-kinetic-core/src/protocol/prepare.rs), in any order.
use pg_kinetic.Prelude.{
  ℕ, ◌+◌, ◌^◌, ◌<◌, ◌≤◌, false, Option, none, some, List, [], ◌∷◌, bytes_eq, length, ◌≡◌, ◌≢◌, inl,
  inr, arith, Option-cases, Bytes,
}
use pg_kinetic.Prelude.Tables
use pg_kinetic.Wire.SqlState.{SqlState}
use pg_kinetic.Session.Sql.{SqlCommand}
use pg_kinetic.Prepared.{
  PreparedStatement, PreparedCatalog, InvalidationScope, is_materialized, mark_materialized, new,
  upsert, remove, get_statement, set_route_map_generation_id, invalidate_for_sqlstate, invalidate,
  scope_of,
}
use pg_kinetic.Prepared.Fresh.{
  IsFreshCatalog, new-IsFreshCatalog, upsert-IsFreshCatalog, remove-IsFreshCatalog,
  mark-IsFreshCatalog, invalidate-IsFreshCatalog, route_map-IsFreshCatalog, upsert-unheld,
  forget_next,
}

-- A statement is marked under its name.
pub data Event : Type 0 where
  prepare : Bytes → Bytes → List ℕ → Event
  close : Bytes → Event
  parsed : ℕ → Bytes → Event
  error : SqlState → ℕ → Event
  route_map : ℕ → Event

module _ {A : Type 0} (analyze_sql : Bytes → A) (classify : Bytes → SqlCommand) where
  abbrev mark_found : ℕ → Option (PreparedStatement A) → PreparedCatalog A → PreparedCatalog A
  mark_found b none c = c
  mark_found b (some statement) c = mark_materialized b statement c

  unfoldable pub step : Event → PreparedCatalog A → PreparedCatalog A
  step (prepare name query oids) c = (upsert analyze_sql classify name query oids c).1
  step (close name) c = (remove name c).1
  step (parsed b name) c = mark_found b (get_statement name c) c
  step (error state b) c = (invalidate_for_sqlstate state b c).1
  step (route_map id) c = set_route_map_generation_id id c

  unfoldable pub run : List Event → PreparedCatalog A → PreparedCatalog A
  unfolding step
  run [] c = c
  run (e ∷ es) c = run es (step e c)

  step-IsFreshCatalog :
      (e : Event) (c : PreparedCatalog A)
      → IsFreshCatalog c
      → c.next_statement_id + 1 < 2 ^ 64
      → IsFreshCatalog (step e c) × ((step e c).next_statement_id ≤ c.next_statement_id + 1)
  unfolding step invalidate_for_sqlstate invalidate set_route_map_generation_id upsert remove
      mark_materialized
  step-IsFreshCatalog (prepare name query oids) c h room = (
    upsert-IsFreshCatalog analyze_sql classify name query oids c h room,
    ground (arith, room, forget_next (Tables.get bytes_eq name c.statements) c),
  )
  step-IsFreshCatalog (close name) c h room = (
    remove-IsFreshCatalog name c h,
    ground (
      arith,
      forget_next (Tables.get bytes_eq name c.statements)
          (record c { statements = Tables.erase bytes_eq name c.statements }),
    ),
  )
  step-IsFreshCatalog (parsed b name) c h room = elim (Option-cases (get_statement name c)) [
    | inl e ↦ rw e (h, omega arith)
    | inr (statement, e) ↦ rw e (mark-IsFreshCatalog b name statement c h e, ground (arith))
  ]
  step-IsFreshCatalog (error state b) c h room =
      (invalidate-IsFreshCatalog (scope_of state) b c h, kept (scope_of state))
    where
      kept :
          (scope : InvalidationScope)
          → (invalidate scope b c).next_statement_id ≤ c.next_statement_id + 1
      kept InvalidationScope.nothing = omega arith
      kept InvalidationScope.backend = omega arith
      kept InvalidationScope.all_backends = omega arith
  step-IsFreshCatalog (route_map id) c h room = (route_map-IsFreshCatalog id c h, ground (arith))

  run-IsFreshCatalog :
      (es : List Event) (c : PreparedCatalog A)
      → IsFreshCatalog c
      → c.next_statement_id + length es < 2 ^ 64
      → IsFreshCatalog (run es c)
  unfolding run
  run-IsFreshCatalog [] c h room = h
  run-IsFreshCatalog (e ∷ es) c h room =
      let (h', next) = step-IsFreshCatalog e c h (omega (arith, room)) in
      run-IsFreshCatalog es (step e c) h' (omega (arith, room, next))

  -- After fewer than 2^64 - 1 calls on a new catalog, a named statement that is prepared or prepared
  -- anew counts as held by no backend: it will be parsed wherever it is used.
  pub prepared_is_parsed :
      (session_id : ℕ) (es : List Event) (name query : Bytes) (oids : List ℕ) (b : ℕ)
      → length es + 1 < 2 ^ 64
      → name ≢ []
      → let (statement, c) =
          upsert analyze_sql classify name query oids (run es (new session_id)) in
        is_materialized b statement c ≡ false
  unfolding new
  prepared_is_parsed session_id es name query oids b room named =
      upsert-unheld analyze_sql classify name query oids (run es (new session_id)) b
        (run-IsFreshCatalog es (new session_id) (new-IsFreshCatalog session_id)
          (omega (arith, room)))
        named
