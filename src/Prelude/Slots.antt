-- ===== src/Prelude/Slots.antt =====
-- `BTreeMap` with keys of `usize`, as the list of its entries in the order of the keys.
use Prim.Native.Nat.{ℕ, ◌<◌}
use mathlib.Core.Path.{◌≡◌, refl, ◌∙◌}
use mathlib.Core.List.{List, [], ◌∷◌}
use mathlib.Core.Option.{Option, none, some}
use native.Mathlib.Omega.{arith}
use all_is_cubes.Prelude.Tests.{ltb, ◌==◌, if◌then◌else◌}

module _ {ℓ} {V : Type ℓ} where
  -- `BTreeMap::get`
  unfoldable pub find_slot : ℕ → List (ℕ × V) → Option V
  find_slot k [] = none
  find_slot k ((j, v) ∷ m) = if j == k then some v else find_slot k m

  -- `BTreeMap::insert`
  unfoldable pub insert_slot : ℕ → V → List (ℕ × V) → List (ℕ × V)
  insert_slot k v [] = (k, v) ∷ []
  insert_slot k v ((j, w) ∷ m) =
      let rest = (j, w) ∷ insert_slot k v m in
      if j == k then (k, v) ∷ m else if ltb k j then (k, v) ∷ (j, w) ∷ m else rest

  -- `BTreeMap::extend`
  unfoldable pub extend_slots : List (ℕ × V) → List (ℕ × V) → List (ℕ × V)
  unfolding insert_slot
  extend_slots m [] = m
  extend_slots m ((k, v) ∷ rest) = extend_slots (insert_slot k v m) rest

  abbrev pub AllAbove : ℕ → List (ℕ × V) → Type 0
  AllAbove k [] = Unit
  AllAbove k ((j, v) ∷ m) = (k < j) × AllAbove k m

  -- The keys ascend.
  abbrev pub Ascending : List (ℕ × V) → Type 0
  Ascending [] = Unit
  Ascending ((k, v) ∷ m) = AllAbove k m × Ascending m

  pub find_slot-insert_slot :
      (j k : ℕ) (v : V) (m : List (ℕ × V))
      → find_slot j (insert_slot k v m) ≡ (if k == j then some v else find_slot j m)
  unfolding find_slot insert_slot
  find_slot-insert_slot j k v [] = refl
  find_slot-insert_slot j k v ((i, w) ∷ m) = ground (arith, find_slot-insert_slot j k v m)

  AllAbove-insert :
      (i k : ℕ) (v : V) (m : List (ℕ × V)) → i < k → AllAbove i m → AllAbove i (insert_slot k v m)
  unfolding insert_slot
  AllAbove-insert i k v [] h a = (h, tt)
  AllAbove-insert i k v ((j, w) ∷ m) h a = ground (arith, AllAbove-insert i k v m h a.1)

  AllAbove-trans : (i k : ℕ) (m : List (ℕ × V)) → i < k → AllAbove k m → AllAbove i m
  AllAbove-trans i k [] h a = tt
  AllAbove-trans i k ((j, w) ∷ m) h a = (omega arith, AllAbove-trans i k m h a.1)

  pub insert_slot-Ascending :
      (k : ℕ) (v : V) (m : List (ℕ × V)) → Ascending m → Ascending (insert_slot k v m)
  unfolding insert_slot
  insert_slot-Ascending k v [] a = (tt, tt)
  insert_slot-Ascending k v ((j, w) ∷ m) a = ground (
    arith,
    insert_slot-Ascending k v m a.1,
    λ (h : j < k). AllAbove-insert j k v m h a.0,
    λ (h : k < j). AllAbove-trans k j m h a.0,
  )

  pub extend_slots-Ascending : (m o : List (ℕ × V)) → Ascending m → Ascending (extend_slots m o)
  unfolding extend_slots
  extend_slots-Ascending m [] a = a
  extend_slots-Ascending m ((k, v) ∷ o) a =
      extend_slots-Ascending (insert_slot k v m) o (insert_slot-Ascending k v m a)

  -- The new entry of a key, or else the old one.
  abbrev pub or_else : Option V → Option V → Option V
  or_else none b = b
  or_else (some v) b = some v

  pub find_slot_above : (k : ℕ) (m : List (ℕ × V)) → AllAbove k m → find_slot k m ≡ none
  unfolding find_slot
  find_slot_above k [] a = refl
  find_slot_above k ((j, w) ∷ m) a = ground (arith, find_slot_above k m a.1)

  pub find_slot-extend_slots :
      (j : ℕ) (m o : List (ℕ × V))
      → Ascending o
      → find_slot j (extend_slots m o) ≡ or_else (find_slot j o) (find_slot j m)
  unfolding extend_slots find_slot
  find_slot-extend_slots j m [] a = refl
  find_slot-extend_slots j m ((k, v) ∷ o) a =
      find_slot-extend_slots j (insert_slot k v m) o a.1
      ∙ ground (arith, find_slot-insert_slot j k v m, find_slot_above k o a.0)
