-- ===== src/Prelude/Dict.antt =====
-- Maps with keys that can be compared, as lists of entries. What is modelled with them does not
-- depend on the order of the entries.
use mathlib.Core.Path.{◌≡◌, refl}
use mathlib.Core.List.{List, [], ◌∷◌}
use mathlib.Core.Option.{Option, none, some}
use native.Mathlib.Omega.{arith}
use all_is_cubes.Prelude.Tests.{Eq, if◌then◌else◌}

module _ {K V : Type 0} ⦃e : Eq K⦄ where
  -- `get`
  unfoldable pub find : K → List (K × V) → Option V
  find k [] = none
  find k ((j, v) ∷ m) = if e.beq j k then some v else find k m

  -- `insert`
  unfoldable pub put : K → V → List (K × V) → List (K × V)
  put k v [] = (k, v) ∷ []
  put k v ((j, w) ∷ m) = let rest = put k v m in if e.beq j k then (k, v) ∷ m else (j, w) ∷ rest

  -- `remove`. A key has one entry at most.
  unfoldable pub remove : K → List (K × V) → List (K × V)
  remove k [] = []
  remove k ((j, w) ∷ m) = let rest = remove k m in if e.beq j k then rest else (j, w) ∷ rest

  pub find-put :
      (j k : K) (v : V) (m : List (K × V))
      → find j (put k v m) ≡ (if e.beq k j then some v else find j m)
  unfolding find put
  find-put j k v [] = refl
  find-put j k v ((i, w) ∷ m) =
      ground (arith, e.beq_iff i k, e.beq_iff k j, e.beq_iff i j, find-put j k v m)

  pub find-remove :
      (j k : K) (m : List (K × V)) → find j (remove k m) ≡ (if e.beq k j then none else find j m)
  unfolding find remove
  find-remove j k [] = ground arith
  find-remove j k ((i, w) ∷ m) =
      ground (arith, e.beq_iff i k, e.beq_iff k j, e.beq_iff i j, find-remove j k m)
