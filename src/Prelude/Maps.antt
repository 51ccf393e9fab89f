-- ===== src/Prelude/Maps.antt =====
-- `BTreeMap<String, String>`: pairs in the order of their keys, compared byte by byte.
use pg_kinetic.Prelude.Tests.{◌==◌, ltb, if◌then◌else◌}
use pg_kinetic.Prelude.Texts.{Bytes, bytes_eq, bytes_eq_iff}
use mathlib.Core.Path.{◌≡◌, refl}
use mathlib.Core.Bool.{Bool, true, false}
use mathlib.Core.List.{List, [], ◌∷◌}
use mathlib.Core.Option.{Option, none, some}
use native.Mathlib.Omega.{arith}

-- `a < b` on texts.
abbrev pub text_ltb : Bytes → Bytes → Bool
text_ltb [] [] = false
text_ltb [] (y ∷ ys) = true
text_ltb (x ∷ xs) [] = false
text_ltb (x ∷ xs) (y ∷ ys) =
    let rest = text_ltb xs ys in if ltb x y then true else if x == y then rest else false

abbrev pub TextMap : Type 0
TextMap = List (Bytes × Bytes)

unfoldable pub lookup : Bytes → TextMap → Option Bytes
lookup k [] = none
lookup k ((j, v) ∷ m) = if bytes_eq j k then some v else lookup k m

unfoldable pub insert : Bytes → Bytes → TextMap → TextMap
insert k v [] = (k, v) ∷ []
insert k v ((j, w) ∷ m) =
    let rest = insert k v m in
    if bytes_eq j k
    then (k, v) ∷ m
    else if text_ltb k j
    then (k, v) ∷ ((j, w) ∷ m)
    else (j, w) ∷ rest

-- A key stands in a map once at most.
unfoldable pub remove : Bytes → TextMap → TextMap
remove k [] = []
remove k ((j, w) ∷ m) = let rest = remove k m in if bytes_eq j k then rest else (j, w) ∷ rest

pub lookup-insert :
    (k j v : Bytes) (m : TextMap)
    → lookup j (insert k v m) ≡ (if bytes_eq k j then some v else lookup j m)
unfolding lookup insert
lookup-insert k j v [] = refl
lookup-insert k j v ((i, w) ∷ m) =
    ground (arith, bytes_eq_iff k j, bytes_eq_iff i k, bytes_eq_iff i j, lookup-insert k j v m)

pub lookup-remove :
    (k j : Bytes) (m : TextMap)
    → lookup j (remove k m) ≡ (if bytes_eq k j then none else lookup j m)
unfolding lookup remove
lookup-remove k j [] = ground arith
lookup-remove k j ((i, w) ∷ m) =
    ground (arith, bytes_eq_iff k j, bytes_eq_iff i k, bytes_eq_iff i j, lookup-remove k j m)
