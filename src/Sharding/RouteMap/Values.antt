-- ===== src/Sharding/RouteMap/Values.antt =====
-- The values of list rules: when none is listed twice (crates/pg-kinetic-core/src/traffic/sharding.rs).
use pg_kinetic.Prelude.{
  true, false, List, [], ◌∷◌, ◌++◌, ◌≡◌, ◌↔◌, refl, arith, Bool-cases, inl, inr,
}
use pg_kinetic.Sharding.{ShardKey, shard_key_eq}
use pg_kinetic.Sharding.RouteMap.{ShardRuleDefinition, list_definition, contains, value_errors}

abbrev pub values_of : ShardRuleDefinition → List ShardKey
values_of (list_definition route values) = values
values_of _ = []

abbrev pub all_values : List ShardRuleDefinition → List ShardKey
all_values [] = []
all_values (rule ∷ rules) = values_of rule ++ all_values rules

-- No value is among those before it, or among those seen.
abbrev pub AllNew : List ShardKey → List ShardKey → Type 0
AllNew seen [] = Unit
AllNew seen (v ∷ vs) = (contains seen v ≡ false) × AllNew (v ∷ seen) vs

-- The values that are seen after those of a list.
abbrev pub entered : List ShardKey → List ShardKey → List ShardKey
entered seen [] = seen
entered seen (v ∷ vs) = entered (v ∷ seen) vs

pub AllNew-append :
    (seen vs ws : List ShardKey)
    → AllNew seen (vs ++ ws) ↔ (AllNew seen vs × AllNew (entered seen vs) ws)
AllNew-append seen [] ws = (λ h. (tt, h), λ h. h.1)
AllNew-append seen (v ∷ vs) ws =
    let rest = AllNew-append (v ∷ seen) vs ws in
    (λ h. ((h.0, (rest.0 h.1).0), (rest.0 h.1).1), λ h. (h.0.0, rest.1 (h.0.1, h.1)))

abbrev pub Within : List ShardKey → List ShardKey → Type 0
Within own seen = (v : ShardKey) → contains own v ≡ true → contains seen v ≡ true

not_own :
    (own seen : List ShardKey) (v : ShardKey)
    → Within own seen
    → contains seen v ≡ false
    → contains own v ≡ false
not_own own seen v w e = elim (Bool-cases (contains own v)) [
  | inr o ↦ o
  | inl o ↦ absurd (ground (arith, e, w v o))
]

Within-cons :
    (own seen : List ShardKey) (v : ShardKey) → Within own seen → Within (v ∷ own) (v ∷ seen)
Within-cons own seen v w u h = elim (Bool-cases (shard_key_eq v u)) [
  | inl e ↦ ground (arith, e)
  | inr e ↦ ground (arith, e, h, w u)
]

pub value_errors-nil_iff :
    (own seen vs : List ShardKey)
    → Within own seen
    → ((value_errors own seen vs).0 ≡ []) ↔ AllNew seen vs
unfolding value_errors
value_errors-nil_iff own seen [] w = (λ h. tt, λ h. refl)
value_errors-nil_iff own seen (v ∷ vs) w = elim (Bool-cases (contains seen v)) [
  | inl e ↦ (λ h. absurd (ground (arith, e, h)), λ h. absurd (ground (arith, e, h.0)))
  | inr e ↦
      let o = not_own own seen v w e in
      let rest = value_errors-nil_iff (v ∷ own) (v ∷ seen) vs (Within-cons own seen v w) in
      rw (o, e) (λ h. (refl, rest.0 h), λ h. rest.1 h.1)
]

pub value_errors-entered :
    (own seen vs : List ShardKey)
    → Within own seen
    → AllNew seen vs
    → (value_errors own seen vs).1 ≡ entered seen vs
unfolding value_errors
value_errors-entered own seen [] w h = refl
value_errors-entered own seen (v ∷ vs) w h =
    let o = not_own own seen v w h.0 in
    rw (o, h.0) (value_errors-entered (v ∷ own) (v ∷ seen) vs (Within-cons own seen v w) h.1)
