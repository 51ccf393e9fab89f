-- ===== src/Guardrails/Decisions.antt =====
-- What the rules of crates/pg-kinetic-proxy/src/guardrails.rs decide, and that their record of
-- fingerprints stays small.
use pg_kinetic.Guardrails.{
  max_observations, enforce, allow, GuardrailDecision, GuardrailRegistry, is_off, contains_key,
  make_room, observe_fingerprint, decide, evaluate,
}
use pg_kinetic.Prelude.Tables.{get, put, erase}
use pg_kinetic.Prelude.{
  ℕ, ◌≤◌, ◌<◌, ◌≡◌, ◌≢◌, refl, sym, ◌∙◌, ◌↔◌, ◌⊎◌, inl, inr, Bool, true, false, ◌&&◌, Option, none,
  some, List, [], ◌∷◌, arith, leb, length, if◌then◌else◌, is_some, bytes_eq, Bool-cases,
  Option-cases,
}
use pg_kinetic.Routing.{QueryClass, write}
use pg_kinetic.Sql.Chars.{Text, is_empty}
use pg_kinetic.Sql.Fingerprint.{fingerprint_sql}
use pg_kinetic.Sql.Tokens.{is_ddl, is_unqualified_dml}

-- A statement that the rules let through when they are enforced.
abbrev pub IsAllowed : GuardrailRegistry → QueryClass → Text → Text → Type 0
IsAllowed r class sql fingerprint =
    ¬ ((r.config.block_unqualified_dml ≡ true) × (class ≡ write) × (is_unqualified_dml sql ≡ true))
    × ¬ ((r.config.block_ddl ≡ true) × (is_ddl sql ≡ true))
    × (is_empty fingerprint ≡ false)
    × (contains_key fingerprint r.allowlist ≡ true)

module _ (first_key : List (Text × ℕ) → Option Text) where
  decide_iff :
      (r : GuardrailRegistry) (class : QueryClass) (sql fingerprint : Text)
      → (decide first_key r class sql fingerprint ≡ allow)
        ↔ ((r.config.mode ≢ enforce) ⊎ IsAllowed r class sql fingerprint)
  unfolding decide
  decide_iff r class sql fingerprint = ground arith

erase-length : (k : Text) (o : List (Text × ℕ)) → length (erase bytes_eq k o) ≤ length o
unfolding erase
erase-length k [] = omega arith
erase-length k ((j, n) ∷ o) = ground (arith, erase-length k o)

erase-shorter :
    (k : Text) (o : List (Text × ℕ))
    → is_some (get bytes_eq k o) ≡ true
    → length (erase bytes_eq k o) < length o
unfolding erase get
erase-shorter k [] h = ground arith
erase-shorter k ((j, n) ∷ o) h = ground (arith, erase-length k o, erase-shorter k o)

-- The keys of a map that is not empty have a first one, which is in the map.
abbrev pub HasFirstKey : (List (Text × ℕ) → Option Text) → Type 0
HasFirstKey first_key =
    (o : List (Text × ℕ))
    → 1 ≤ length o
    → (k : Text) × ((first_key o ≡ some k) × (is_some (get bytes_eq k o) ≡ true))

abbrev evaluated :
    GuardrailDecision → GuardrailRegistry → Option (GuardrailDecision × GuardrailRegistry)
evaluated d r = some (d, r)

module _ {d e : GuardrailDecision} {r s : GuardrailRegistry} where
  decision_unique : evaluated d r ≡ evaluated e s → d ≡ e
  decision_unique h = ground arith

  registry_unique : evaluated d r ≡ evaluated e s → r ≡ s
  registry_unique h = ground arith

none_evaluated : {d : GuardrailDecision} {r : GuardrailRegistry} → ¬ (none ≡ evaluated d r)
none_evaluated h = ground arith

and_false : (b : Bool) → (b && false) ≡ false
and_false b = ground arith

-- The counts behind an evaluation.
abbrev seen : (List (Text × ℕ) → Option Text) → Text → List (Text × ℕ) → List (Text × ℕ)
seen first_key fingerprint o =
    if is_empty fingerprint then o else observe_fingerprint first_key fingerprint o

module _ (first_key : List (Text × ℕ) → Option Text) where
  put-length :
      (k : Text) (n : ℕ) (o : List (Text × ℕ))
      → (length o < max_observations) ⊎ (is_some (get bytes_eq k o) ≡ true)
      → length o ≤ max_observations
      → length (put bytes_eq k n o) ≤ max_observations
  put-length k n o (inl h) b = omega (arith, erase-length k o)
  put-length k n o (inr h) b = omega (arith, erase-shorter k o h)

  make_room-lem :
      (k : Text) (o : List (Text × ℕ))
      → HasFirstKey first_key
      → length o ≤ max_observations
      → ((length (make_room first_key k o) < max_observations)
          ⊎ (is_some (get bytes_eq k (make_room first_key k o)) ≡ true))
        × (length (make_room first_key k o) ≤ max_observations)
  unfolding make_room get
  make_room-lem k o first b = elim (Bool-cases (is_some (get bytes_eq k o))) [
    | inl known ↦ rw (make_room, known, and_false (leb max_observations (length o))) (inr known, b)
    | inr fresh ↦ elim (Bool-cases (leb max_observations (length o))) [
      | inr e ↦ rw (make_room, e) (inl (ground arith), b)
      | inl e ↦
          let (oldest, (is_first, there)) = first o (ground arith) in
          let shorter : length (erase bytes_eq oldest o) < max_observations =
            omega (arith, erase-shorter oldest o there) in
          rw (make_room, e, fresh, is_first) (inl shorter, omega (arith, shorter))
    ]
  ]

  observe_fingerprint-bounded :
      (fingerprint : Text) (o : List (Text × ℕ))
      → HasFirstKey first_key
      → length o ≤ max_observations
      → length (observe_fingerprint first_key fingerprint o) ≤ max_observations
  unfolding observe_fingerprint
  observe_fingerprint-bounded fingerprint o first b =
      let (room, below) = make_room-lem fingerprint o first b in
      put-length fingerprint 0 (make_room first_key fingerprint o) room below

  evaluate_off :
      (r : GuardrailRegistry) (class : QueryClass) (sql : Text)
      → is_off r.config.mode ≡ true
      → evaluate first_key r class sql ≡ some (allow, r)
  unfolding evaluate
  evaluate_off r class sql off = rw (evaluate, off) refl

  evaluate_panics :
      (r : GuardrailRegistry) (class : QueryClass) (sql : Text)
      → is_off r.config.mode ≡ false
      → fingerprint_sql sql ≡ none
      → evaluate first_key r class sql ≡ none
  unfolding evaluate
  evaluate_panics r class sql on e = rw (evaluate, on, e) refl

  seen-bounded :
      (fingerprint : Text) (o : List (Text × ℕ))
      → HasFirstKey first_key
      → length o ≤ max_observations
      → length (seen first_key fingerprint o) ≤ max_observations
  seen-bounded [] o first b = b
  seen-bounded (c ∷ cs) o first b = observe_fingerprint-bounded (c ∷ cs) o first b

  evaluate_on :
      (r : GuardrailRegistry) (class : QueryClass) (sql fingerprint : Text)
      → is_off r.config.mode ≡ false
      → fingerprint_sql sql ≡ some fingerprint
      → evaluate first_key r class sql
        ≡ some (
          decide first_key r class sql fingerprint,
          record r { observations = seen first_key fingerprint r.observations },
        )
  unfolding evaluate
  evaluate_on r class sql fingerprint on e = rw (evaluate, on, e) refl

  -- A statement whose fingerprint is made is let through exactly when the rules are not enforced,
  -- or it breaks none: it is no blocked change of all rows, no blocked definition, and its
  -- fingerprint is on the list.
  pub evaluate_iff :
      (r : GuardrailRegistry) (class : QueryClass) (sql fingerprint : Text)
      → fingerprint_sql sql ≡ some fingerprint
      → ((later : GuardrailRegistry) × (evaluate first_key r class sql ≡ some (allow, later)))
        ↔ ((r.config.mode ≢ enforce) ⊎ IsAllowed r class sql fingerprint)
  evaluate_iff r class sql fingerprint e = elim (Bool-cases (is_off r.config.mode)) [
    | inl off ↦ (λ _. inl (ground arith), λ _. (r, evaluate_off r class sql off))
    | inr on ↦
        let same = evaluate_on r class sql fingerprint on e in
        let (to, from) = decide_iff first_key r class sql fingerprint in
        (
          λ (later, h). to (decision_unique (sym same ∙ h)),
          λ h. (
            record r { observations = seen first_key fingerprint r.observations },
            rw (← from h) same,
          ),
        )
  ]

  -- No more than 256 fingerprints are counted, whichever key of a full map is dropped.
  pub evaluate_bounded :
      (r later : GuardrailRegistry) (class : QueryClass) (sql : Text) (d : GuardrailDecision)
      → HasFirstKey first_key
      → length r.observations ≤ max_observations
      → evaluate first_key r class sql ≡ some (d, later)
      → length later.observations ≤ max_observations
  evaluate_bounded r later class sql d first b h = elim (Bool-cases (is_off r.config.mode)) [
    | inl off ↦ let e = registry_unique (sym (evaluate_off r class sql off) ∙ h) in rw (← e) b
    | inr on ↦ elim (Option-cases (fingerprint_sql sql)) [
      | inl n ↦ absurd (none_evaluated (sym (evaluate_panics r class sql on n) ∙ h))
      | inr (fingerprint, e) ↦
          let same = registry_unique (sym (evaluate_on r class sql fingerprint on e) ∙ h) in
          rw (← same) (seen-bounded fingerprint r.observations first b)
    ]
  ]
