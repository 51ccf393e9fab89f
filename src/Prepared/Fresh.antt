-- ===== src/Prepared/Fresh.antt =====
-- The cache keys of a catalog (crates/pg-kinetic-core/src/protocol/prepare.rs) are new ones.
use pg_kinetic.Prelude.{
  ℕ, ◌+◌, ◌%◌, ◌^◌, ◌<◌, ◌≤◌, false, ◌||◌, not, Option, none, some, List, [], ◌∷◌, ◌==◌, bytes_eq,
  bytes_ne, All, subst, ◌≡◌, ◌≢◌, inl, inr, refl, sym, arith, Bool-cases, Bytes,
}
use pg_kinetic.Prelude.Tables.{get, erase, put}
use pg_kinetic.Session.Sql.{SqlCommand}
use pg_kinetic.Prepared.{
  PreparedStatement, PreparedCatalog, InvalidationScope, or_default, is_current_route_map,
  is_materialized, mark_materialized, new, upsert, remove, forget, get_statement,
  set_route_map_generation_id, invalidate,
}
use pg_kinetic.Prepared.Keys.{
  IsBelow, AllBelow, All-erase, All-get, erase-IsBelow, retain_below, got-IsBelow, unheld,
  weaker_below,
}

-- The next key is no key yet, and is not the key of the statement without a name.
pub record IsFreshCatalog {A : Type 0} (c : PreparedCatalog A) : Type 0 where
  pub positive : 0 < c.next_statement_id
  pub unheld_keys : AllBelow c.next_statement_id c.materialized
  pub unused_keys : All (λ p. p.1.cache_key < c.next_statement_id) c.statements

module _ {A : Type 0} where
  pub forget_next :
      (found : Option (PreparedStatement A)) (c : PreparedCatalog A)
      → (forget found c).next_statement_id ≡ c.next_statement_id
  forget_next none c = refl
  forget_next (some previous) c = ground (arith)

  forget_statements :
      (found : Option (PreparedStatement A)) (c : PreparedCatalog A)
      → (forget found c).statements ≡ c.statements
  forget_statements none c = refl
  forget_statements (some previous) c = ground (arith)

  forget_below :
      (n : ℕ) (found : Option (PreparedStatement A)) (c : PreparedCatalog A)
      → AllBelow n c.materialized
      → AllBelow n (forget found c).materialized
  forget_below n none c h = h
  forget_below n (some previous) c h =
      ground (arith, h, retain_below n previous.cache_key c.materialized h)

  -- A named statement that is prepared or prepared anew is held by no backend: it will be parsed
  -- wherever it is used.
  pub upsert-unheld :
      (analyze_sql : Bytes → A) (classify : Bytes → SqlCommand) (name query : Bytes) (oids : List ℕ)
      (c : PreparedCatalog A) (b : ℕ)
      → IsFreshCatalog c
      → name ≢ []
      → let (statement, c') = upsert analyze_sql classify name query oids c in
        is_materialized b statement c' ≡ false
  unfolding upsert is_materialized
  upsert-unheld analyze_sql classify name query oids c b h named =
      let found = get bytes_eq name c.statements in
      let c1 = forget found c in
      let next = forget_next found c in
      let below : AllBelow c1.next_statement_id c1.materialized =
        subst (λ n. AllBelow n c1.materialized) (sym next)
          (forget_below c.next_statement_id found c h.unheld_keys) in
      let absent =
        unheld c1.next_statement_id c1.next_statement_id b none c1.materialized below
          (omega arith) in
      ground (arith, bytes_ne name [] named, absent, next, h.positive)

  pub new-IsFreshCatalog : (session_id : ℕ) → IsFreshCatalog (new {A = A} session_id)
  unfolding new
  new-IsFreshCatalog session_id = record {
    positive = omega arith;
    unheld_keys = tt;
    unused_keys = tt;
  }

  forget-IsFreshCatalog :
      (found : Option (PreparedStatement A)) (c : PreparedCatalog A)
      → IsFreshCatalog c
      → IsFreshCatalog (forget found c)
  forget-IsFreshCatalog none c h = h
  forget-IsFreshCatalog (some previous) c h = elim (Bool-cases (previous.cache_key == 0)) [
    | inl e ↦
        rw e (record {
          positive = h.positive;
          unheld_keys = h.unheld_keys;
          unused_keys = h.unused_keys;
        })
    | inr e ↦ rw e (record {
      positive = h.positive;
      unheld_keys =
          retain_below c.next_statement_id previous.cache_key c.materialized h.unheld_keys;
      unused_keys = h.unused_keys;
    })
  ]

  put-IsFreshCatalog :
      (name : Bytes) (statement : PreparedStatement A) (c : PreparedCatalog A) (next : ℕ)
      → IsFreshCatalog c
      → statement.cache_key < next
      → c.next_statement_id ≤ next
      → IsFreshCatalog (record c {
        next_statement_id = next;
        statements = put bytes_eq name statement c.statements;
      })
  put-IsFreshCatalog name statement c next h below le = record {
    positive = omega arith;
    unheld_keys = weaker_below c.next_statement_id next c.materialized le h.unheld_keys;
    unused_keys = (
      below,
      weaker (erase bytes_eq name c.statements) (
          All-erase bytes_eq (λ s. s.cache_key < c.next_statement_id) name c.statements
            h.unused_keys),
    );
  }
    where
      weaker :
          (t : List (Bytes × PreparedStatement A))
          → All (λ p. p.1.cache_key < c.next_statement_id) t
          → All (λ p. p.1.cache_key < next) t
      weaker [] a = tt
      weaker (p ∷ t) a = (omega (arith, le), weaker t a.1)

  pub upsert-IsFreshCatalog :
      (analyze_sql : Bytes → A) (classify : Bytes → SqlCommand) (name query : Bytes) (oids : List ℕ)
      (c : PreparedCatalog A)
      → IsFreshCatalog c
      → c.next_statement_id + 1 < 2 ^ 64
      → IsFreshCatalog (upsert analyze_sql classify name query oids c).1
  unfolding upsert
  upsert-IsFreshCatalog analyze_sql classify name query oids c h room =
      let found = get bytes_eq name c.statements in
      let c1 = forget found c in
      let h1 = forget-IsFreshCatalog found c h in
      let next = forget_next found c in
      elim (Bool-cases (bytes_eq name [])) [
        | inl e ↦
            rw e (put-IsFreshCatalog name _ c1 c1.next_statement_id h1 h1.positive (omega arith))
        | inr e ↦ rw e (
            put-IsFreshCatalog name _ c1 ((c1.next_statement_id + 1) % 2 ^ 64) h1
              (omega (arith, next, room)) (omega (arith, next, room)))
      ]

  pub remove-IsFreshCatalog :
      (name : Bytes) (c : PreparedCatalog A) → IsFreshCatalog c → IsFreshCatalog (remove name c).1
  unfolding remove
  remove-IsFreshCatalog name c h =
      forget-IsFreshCatalog (get bytes_eq name c.statements)
        (record c { statements = erase bytes_eq name c.statements })
        (record {
          positive = h.positive;
          unheld_keys = h.unheld_keys;
          unused_keys =
              All-erase bytes_eq (λ s. s.cache_key < c.next_statement_id) name c.statements
                h.unused_keys;
        })

  pub mark-IsFreshCatalog :
      (b : ℕ) (name : Bytes) (statement : PreparedStatement A) (c : PreparedCatalog A)
      → IsFreshCatalog c
      → get_statement name c ≡ some statement
      → IsFreshCatalog (mark_materialized b statement c)
  unfolding mark_materialized get_statement
  mark-IsFreshCatalog b name statement c h e =
      let skipped = (statement.cache_key == 0) || not (is_current_route_map statement c) in
      elim (Bool-cases skipped) [
        | inl t ↦ rw t h
        | inr t ↦ rw t (record {
          positive = h.positive;
          unheld_keys = (
            (
              All-get bytes_eq (λ s. s.cache_key < c.next_statement_id) name statement c.statements
                  h.unused_keys e,
              erase-IsBelow c.next_statement_id statement.cache_key
                  (or_default (get ◌==◌ b c.materialized))
                  (got-IsBelow c.next_statement_id b c.materialized h.unheld_keys),
            ),
            All-erase ◌==◌ (IsBelow c.next_statement_id) b c.materialized h.unheld_keys,
          );
          unused_keys = h.unused_keys;
        })
      ]

  pub invalidate-IsFreshCatalog :
      (scope : InvalidationScope) (b : ℕ) (c : PreparedCatalog A)
      → IsFreshCatalog c
      → IsFreshCatalog (invalidate scope b c)
  unfolding invalidate
  invalidate-IsFreshCatalog InvalidationScope.nothing b c h = h
  invalidate-IsFreshCatalog InvalidationScope.backend b c h = record {
    positive = h.positive;
    unheld_keys = All-erase ◌==◌ (IsBelow c.next_statement_id) b c.materialized h.unheld_keys;
    unused_keys = h.unused_keys;
  }
  invalidate-IsFreshCatalog InvalidationScope.all_backends b c h = record {
    positive = h.positive;
    unheld_keys = tt;
    unused_keys = h.unused_keys;
  }

  pub route_map-IsFreshCatalog :
      (id : ℕ) (c : PreparedCatalog A)
      → IsFreshCatalog c
      → IsFreshCatalog (set_route_map_generation_id id c)
  unfolding set_route_map_generation_id
  route_map-IsFreshCatalog id c h = elim (Bool-cases (c.route_map_generation_id == id)) [
    | inl e ↦ rw e h
    | inr e ↦ rw e (record { positive = h.positive; unheld_keys = tt; unused_keys = h.unused_keys })
  ]
