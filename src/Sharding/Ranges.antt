-- ===== src/Sharding/Ranges.antt =====
-- Range rules that were validated (crates/pg-kinetic-core/src/traffic/sharding.rs).
use pg_kinetic.Prelude.{
  ℕ, zero, suc, ◌+◌, Bool, true, false, Option, none, some, List, [], ◌∷◌, get_elem?, ◌≡◌, ◌↔◌,
  refl, ap, arith, Bool-cases, inl, inr,
}
use pg_kinetic.Sharding.{ShardKey, ShardValidationError, any_rule, first_index}
use pg_kinetic.Sharding.Rules.{
  RangeShardRule, boundary_satisfies_lower, boundary_satisfies_upper, range_rule_matches,
  range_lookup, range_is_before, range_rules_overlap, any_overlap, overlap_error,
  validate_range_rules,
}
use pg_kinetic.Sharding.Order.{key-not-above}

-- A key is never in a range and in one that stands before it.
before_excludes :
    (left right : RangeShardRule) (key : ShardKey)
    → range_is_before left right ≡ true
    → range_rule_matches left key ≡ true
    → range_rule_matches right key ≡ false
unfolding range_is_before range_rule_matches boundary_satisfies_lower boundary_satisfies_upper
before_excludes left right key b m = ground (
  arith,
  b,
  m,
  key-not-above key left.upper_bound right.lower_bound left.upper_inclusive right.lower_inclusive,
)

apart_excludes :
    (left right : RangeShardRule) (key : ShardKey)
    → range_rules_overlap left right ≡ false
    → range_rule_matches left key ≡ true
    → range_rule_matches right key ≡ false
unfolding range_rules_overlap
apart_excludes left right key h m = elim (Bool-cases (range_is_before left right)) [
  | inl b ↦ before_excludes left right key b m
  | inr b ↦ elim (Bool-cases (range_rule_matches right key)) [
    | inr e ↦ e
    | inl e ↦ ground (arith, h, b, m, before_excludes right left key (ground (arith, h, b)) e)
  ]
]

any_rule-get :
    {A : Type 0} (p : A → Bool) (xs : List A) (i : ℕ) (x : A)
    → any_rule p xs ≡ false
    → get_elem? xs i ≡ some x
    → p x ≡ false
any_rule-get p [] i x h g = cc
any_rule-get p (y ∷ xs) zero x h g = ground (arith, h, g)
any_rule-get p (y ∷ xs) (suc i) x h g = any_rule-get p xs i x (ground (arith, h)) g

-- Of rules without an overlap, a key is in one at most.
apart_unique :
    (rules : List RangeShardRule) (key : ShardKey) (i j : ℕ) (a b : RangeShardRule)
    → any_overlap rules ≡ false
    → get_elem? rules i ≡ some a
    → get_elem? rules j ≡ some b
    → range_rule_matches a key ≡ true
    → range_rule_matches b key ≡ true
    → i ≡ j
unfolding any_overlap
apart_unique [] key i j a b h ga gb ma mb = cc
apart_unique (r ∷ rules) key zero zero a b h ga gb ma mb = refl
apart_unique (r ∷ rules) key zero (suc j) a b h ga gb ma mb =
    let out =
      apart_excludes r b key
        (any_rule-get (λ right. range_rules_overlap r right) rules j b (ground (arith, h)) gb) in
    ground (arith, ga, ma, mb, out)
apart_unique (r ∷ rules) key (suc i) zero a b h ga gb ma mb =
    let out =
      apart_excludes r a key
        (any_rule-get (λ right. range_rules_overlap r right) rules i a (ground (arith, h)) ga) in
    ground (arith, gb, ma, mb, out)
apart_unique (r ∷ rules) key (suc i) (suc j) a b h ga gb ma mb =
    ap suc (apart_unique rules key i j a b (ground (arith, h)) ga gb ma mb)

module _ {A : Type 0} (p : A → Bool) where
  -- What the search returns is the index of an element that passes.
  pub first_index-get :
      (xs : List A) (n k : ℕ)
      → first_index p n xs ≡ some k
      → (i : ℕ) × (x : A) × ((k ≡ n + i) × ((get_elem? xs i ≡ some x) × (p x ≡ true)))
  first_index-get [] n k h = cc
  first_index-get (x ∷ xs) n k h = elim (Bool-cases (p x)) [
    | inl e ↦ (0, x, (ground (arith, h, e), (refl, e)))
    | inr e ↦
        let (i, y, (at, found)) = first_index-get xs (n + 1) k (ground (arith, h, e)) in
        (suc i, y, (omega (arith, at), found))
  ]

  pub first_index-finds :
      (xs : List A) (n i : ℕ) (x : A)
      → get_elem? xs i ≡ some x
      → p x ≡ true
      → (k : ℕ) × (first_index p n xs ≡ some k)
  first_index-finds [] n i x g h = cc
  first_index-finds (y ∷ xs) n zero x g h = (n, ground (arith, g, h))
  first_index-finds (y ∷ xs) n (suc i) x g h = elim (Bool-cases (p y)) [
    | inl e ↦ (n, ground (arith, e))
    | inr e ↦ let (k, found) = first_index-finds xs (n + 1) i x g h in (k, ground (arith, e, found))
  ]

  -- Where one element passes at most, the search gives its index.
  pub first_index_iff :
      (xs : List A) (i : ℕ) (x : A)
      → ((j : ℕ) (y : A) → get_elem? xs j ≡ some y → p x ≡ true → p y ≡ true → i ≡ j)
      → get_elem? xs i ≡ some x
      → (first_index p 0 xs ≡ some i) ↔ (p x ≡ true)
  first_index_iff xs i x one g = (
    λ h.
        let (j, y, (at, (there, e))) = first_index-get xs 0 i h in
        let same : i ≡ j = omega (arith, at) in ground (arith, g, there, same, e),
    λ e.
        let (k, found) = first_index-finds xs 0 i x g e in
        let (j, y, (at, (there, e'))) = first_index-get xs 0 k found in
        ground (arith, found, at, one j y there e e'),
  )

no_overlap :
    (overlap : Bool) (o : Option ShardValidationError)
    → overlap_error overlap o ≡ none
    → overlap ≡ false
no_overlap overlap (some e) h = cc
no_overlap true none h = cc
no_overlap false none h = refl

-- Among range rules that were validated, the search gives the index of a rule exactly when the
-- key is in its range, whatever the order of the rules.
pub range_lookup_iff :
    (rules : List RangeShardRule) (key : ShardKey) (i : ℕ) (rule : RangeShardRule)
    → validate_range_rules rules ≡ none
    → get_elem? rules i ≡ some rule
    → (range_lookup rules key ≡ some i) ↔ (range_rule_matches rule key ≡ true)
unfolding range_lookup validate_range_rules
range_lookup_iff [] key i rule v g = cc
range_lookup_iff (r ∷ rules) key i rule v g =
    first_index_iff (λ rule. range_rule_matches rule key) (r ∷ rules) i rule
      (λ j b gb ma mb. apart_unique (r ∷ rules) key i j rule b (no_overlap _ _ v) g gb ma mb) g
