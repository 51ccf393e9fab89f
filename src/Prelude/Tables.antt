-- ===== src/Prelude/Tables.antt =====
-- `HashMap<K, V>`: pairs, at most one of a key, whose order nothing depends on.
use pg_kinetic.Prelude.Tests.{if◌then◌else◌}
use mathlib.Core.Path.{◌≡◌}
use mathlib.Core.Logic.{◌↔◌}
use mathlib.Core.Bool.{Bool, true}
use mathlib.Core.List.{List, [], ◌∷◌}
use mathlib.Core.Option.{Option, none, some}
use native.Mathlib.Omega.{arith}

module _ {ℓ κ} {K : Type ℓ} {V : Type κ} (same : K → K → Bool) where
  unfoldable pub get : K → List (K × V) → Option V
  get k [] = none
  get k ((j, v) ∷ t) = if same j k then some v else get k t

  unfoldable pub erase : K → List (K × V) → List (K × V)
  erase k [] = []
  erase k ((j, v) ∷ t) = let rest = erase k t in if same j k then rest else (j, v) ∷ rest

  abbrev pub put : K → V → List (K × V) → List (K × V)
  put k v t = (k, v) ∷ erase k t

  pub get-erase :
      (same_iff : (a b : K) → (same a b ≡ true) ↔ (a ≡ b)) (k j : K) (t : List (K × V))
      → get j (erase k t) ≡ (if same k j then none else get j t)
  unfolding get erase
  get-erase same_iff k j [] = ground arith
  get-erase same_iff k j ((i, v) ∷ t) =
      ground (arith, same_iff k j, same_iff i k, same_iff i j, get-erase same_iff k j t)

  pub get-put :
      (same_iff : (a b : K) → (same a b ≡ true) ↔ (a ≡ b)) (k j : K) (v : V) (t : List (K × V))
      → get j (put k v t) ≡ (if same k j then some v else get j t)
  unfolding get
  get-put same_iff k j v t = ground (arith, get-erase same_iff k j t)
