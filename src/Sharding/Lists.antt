-- ===== src/Sharding/Lists.antt =====
-- List rules that were validated (crates/pg-kinetic-core/src/traffic/sharding.rs).
use pg_kinetic.Prelude.{
  ℕ, zero, suc, ◌+◌, Bool, true, false, Option, none, some, List, [], ◌∷◌, get_elem?, if◌then◌else◌,
  ◌==◌, bytes_eq_iff, ◌≡◌, ◌↔◌, refl, ap, arith, Bool-cases, Option-cases, inl, inr, ◌⊎◌,
}
use pg_kinetic.Prelude.Tables.{get, put, get-put}
use pg_kinetic.Sharding.{
  ShardKey, text_key, integer_key, bytes_key, shard_key_eq, any_rule, ShardValidationError,
}
use pg_kinetic.Sharding.Rules.{
  ListShardRule, SeenValues, see_values, see_rules, list_rule_matches, list_lookup,
  validate_list_rules, seen_error,
}
use pg_kinetic.Sharding.Ranges.{first_index_iff}

shard_key_eq_iff : (a b : ShardKey) → (shard_key_eq a b ≡ true) ↔ (a ≡ b)
shard_key_eq_iff (text_key a) (text_key b) = ground (arith, bytes_eq_iff a b)
shard_key_eq_iff (integer_key a) (integer_key b) = ground arith
shard_key_eq_iff (bytes_key a) (bytes_key b) = ground (arith, bytes_eq_iff a b)
shard_key_eq_iff (text_key a) (integer_key b) = ground arith
shard_key_eq_iff (text_key a) (bytes_key b) = ground arith
shard_key_eq_iff (integer_key a) (text_key b) = ground arith
shard_key_eq_iff (integer_key a) (bytes_key b) = ground arith
shard_key_eq_iff (bytes_key a) (text_key b) = ground arith
shard_key_eq_iff (bytes_key a) (integer_key b) = ground arith

-- A value that came before in its rule is passed over; another one is entered, and was not seen in
-- another rule.
see_step :
    (i : ℕ) (x : ShardKey) (vs own : List ShardKey) (seen after : SeenValues)
    → see_values i (x ∷ vs) own seen ≡ some after
    → ((any_rule (λ v. shard_key_eq v x) own ≡ true) × (see_values i vs own seen ≡ some after))
      ⊎ (((j : ℕ) → get shard_key_eq x seen ≡ some j → j ≡ i)
          × (see_values i vs (x ∷ own) (put shard_key_eq x i seen) ≡ some after))
unfolding see_values
see_step i x vs own seen after h = elim (Bool-cases (any_rule (λ v. shard_key_eq v x) own)) [
  | inl e ↦ inl (e, ground (arith, e, h))
  | inr e ↦ elim (Option-cases (get shard_key_eq x seen)) [
    | inl new ↦ inr (λ j g. ground (arith, new, g), ground (arith, e, new, h))
    | inr (p, old) ↦ elim (Bool-cases (p == i)) [
      | inr ne ↦ absurd (ground (arith, e, old, ne, h))
      | inl same ↦ inr (λ j g. ground (arith, old, same, g), ground (arith, e, old, same, h))
    ]
  ]
]

-- What is seen after one more value.
get_entered :
    (i : ℕ) (x v : ShardKey) (seen : SeenValues)
    → get shard_key_eq v (put shard_key_eq x i seen)
      ≡ (if shard_key_eq x v then some i else get shard_key_eq v seen)
get_entered i x v seen = get-put shard_key_eq shard_key_eq_iff x v i seen

-- The values of one rule leave those that were seen where they were.
see_values-keeps :
    (i : ℕ) (vs own : List ShardKey) (seen after : SeenValues) (v : ShardKey) (j : ℕ)
    → see_values i vs own seen ≡ some after
    → get shard_key_eq v seen ≡ some j
    → get shard_key_eq v after ≡ some j
unfolding see_values
see_values-keeps i [] own seen after v j h g = ground (arith, h, g)
see_values-keeps i (x ∷ vs) own seen after v j h g = elim (see_step i x vs own seen after h) [
  | inl (_, rest) ↦ see_values-keeps i vs own seen after v j rest g
  | inr (old, rest) ↦
      see_values-keeps i vs (x ∷ own) (put shard_key_eq x i seen) after v j rest
        (ground (arith, old j, g, shard_key_eq_iff x v, get_entered i x v seen))
]

-- The values of a rule that came before are in the table at its index.
abbrev Entered : ℕ → List ShardKey → SeenValues → Type 0
Entered i own seen =
    (v : ShardKey) → any_rule (λ x. shard_key_eq x v) own ≡ true → get shard_key_eq v seen ≡ some i

see_values-enters :
    (i : ℕ) (vs own : List ShardKey) (seen after : SeenValues) (v : ShardKey)
    → Entered i own seen
    → see_values i vs own seen ≡ some after
    → any_rule (λ x. shard_key_eq x v) vs ≡ true
    → get shard_key_eq v after ≡ some i
see_values-enters i [] own seen after v o h m = cc
see_values-enters i (x ∷ vs) own seen after v o h m = elim (see_step i x vs own seen after h) [
  | inl (e, rest) ↦ elim (Bool-cases (shard_key_eq x v)) [
    | inr ne ↦ see_values-enters i vs own seen after v o rest (ground (arith, m, ne))
    | inl same ↦
        see_values-keeps i vs own seen after v i rest
          (ground (arith, o x e, same, shard_key_eq_iff x v))
  ]
  | inr (old, rest) ↦ elim (Bool-cases (shard_key_eq x v)) [
    | inl same ↦
        see_values-keeps i vs (x ∷ own) (put shard_key_eq x i seen) after v i rest
          (ground (arith, same, get_entered i x v seen))
    | inr ne ↦
        see_values-enters i vs (x ∷ own) (put shard_key_eq x i seen) after v
          (λ u mu. ground (arith, mu, o u, get_entered i x u seen)) rest (ground (arith, m, ne))
  ]
]

abbrev has : ListShardRule → ShardKey → Bool
has rule v = any_rule (λ x. shard_key_eq x v) rule.values

see_rules-step :
    (n : ℕ) (r : ListShardRule) (rules : List ListShardRule) (seen final : SeenValues)
    → see_rules n (r ∷ rules) seen ≡ some final
    → (after : SeenValues) × ((see_values n r.values [] seen ≡ some after)
        × (see_rules (n + 1) rules after ≡ some final))
unfolding see_rules
see_rules-step n r rules seen final h = elim (Option-cases (see_values n r.values [] seen)) [
  | inl e ↦ absurd (ground (arith, e, h))
  | inr (after, e) ↦ (after, (e, ground (arith, e, h)))
]

-- A key that was seen is in no rule but that of its index.
seen_rule :
    (n : ℕ) (rules : List ListShardRule) (seen final : SeenValues) (v : ShardKey) (j k : ℕ)
    (b : ListShardRule)
    → see_rules n rules seen ≡ some final
    → get shard_key_eq v seen ≡ some j
    → get_elem? rules k ≡ some b
    → has b v ≡ true
    → j ≡ n + k
seen_rule n [] seen final v j k b h g at m = cc
seen_rule n (r ∷ rules) seen final v j zero b h g at m =
    let (after, (e, rest)) = see_rules-step n r rules seen final h in
    let kept = see_values-keeps n r.values [] seen after v j e g in
    let entered =
      see_values-enters n r.values [] seen after v (λ u mu. ground (arith, mu)) e
        (ground (arith, at, m)) in
    ground (arith, kept, entered)
seen_rule n (r ∷ rules) seen final v j (suc k) b h g at m =
    let (after, (e, rest)) = see_rules-step n r rules seen final h in
    let kept = see_values-keeps n r.values [] seen after v j e g in
    omega (arith, seen_rule (n + 1) rules after final v j k b rest kept at m)

first_then :
    (n : ℕ) (r : ListShardRule) (rules : List ListShardRule) (seen final : SeenValues)
    (v : ShardKey) (k : ℕ) (b : ListShardRule)
    → see_rules n (r ∷ rules) seen ≡ some final
    → get_elem? rules k ≡ some b
    → has r v ≡ true
    → has b v ≡ false
first_then n r rules seen final v k b h at m = elim (Bool-cases (has b v)) [
  | inr e ↦ e
  | inl e ↦
      let (after, (one, rest)) = see_rules-step n r rules seen final h in
      let entered =
        see_values-enters n r.values [] seen after v (λ u mu. ground (arith, mu)) one m in
      absurd (omega (arith, seen_rule (n + 1) rules after final v n k b rest entered at e))
]

has_one :
    (n : ℕ) (rules : List ListShardRule) (seen final : SeenValues) (v : ShardKey) (i j : ℕ)
    (a b : ListShardRule)
    → see_rules n rules seen ≡ some final
    → get_elem? rules i ≡ some a
    → get_elem? rules j ≡ some b
    → has a v ≡ true
    → has b v ≡ true
    → i ≡ j
has_one n [] seen final v i j a b h ga gb ma mb = cc
has_one n (r ∷ rules) seen final v zero zero a b h ga gb ma mb = refl
has_one n (r ∷ rules) seen final v zero (suc j) a b h ga gb ma mb =
    ground (arith, ga, ma, mb, first_then n r rules seen final v j b h gb)
has_one n (r ∷ rules) seen final v (suc i) zero a b h ga gb ma mb =
    ground (arith, gb, ma, mb, first_then n r rules seen final v i a h ga)
has_one n (r ∷ rules) seen final v (suc i) (suc j) a b h ga gb ma mb =
    let (after, (one, rest)) = see_rules-step n r rules seen final h in
    ap suc (has_one (n + 1) rules after final v i j a b rest ga gb ma mb)

seen_all :
    (o : Option ShardValidationError) (seen : Option SeenValues)
    → seen_error o seen ≡ none
    → (final : SeenValues) × (seen ≡ some final)
seen_all (some e) seen h = cc
seen_all none none h = cc
seen_all none (some final) h = (final, refl)

matches-has :
    (rule : ListShardRule) (key : ShardKey)
    → list_rule_matches rule key ≡ true
    → has rule key ≡ true
unfolding list_rule_matches
matches-has rule key h = ground (arith, h)

-- Among list rules that were validated, the search gives the index of a rule exactly when the
-- rule lists the key, whatever the order of the rules.
pub list_lookup_iff :
    (rules : List ListShardRule) (key : ShardKey) (i : ℕ) (rule : ListShardRule)
    → validate_list_rules rules ≡ none
    → get_elem? rules i ≡ some rule
    → (list_lookup rules key ≡ some i) ↔ (list_rule_matches rule key ≡ true)
unfolding list_lookup validate_list_rules
list_lookup_iff [] key i rule v g = cc
list_lookup_iff (r ∷ rules) key i rule v g =
    let (final, seen) = seen_all _ _ v in
    first_index_iff (λ rule. list_rule_matches rule key) (r ∷ rules) i rule
      (λ j b gb ma mb.
        has_one 0 (r ∷ rules) [] final key i j rule b seen g gb (matches-has rule key ma)
          (matches-has b key mb))
      g
