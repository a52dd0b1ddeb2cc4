-- ===== src/Space/Transaction/Cubes.antt =====
-- Looking up and inserting cubes in a transaction (all-is-cubes/src/space/space_txn.rs).
use all_is_cubes.Space.Transaction.{insert_at, SpaceTransaction, find_cube}
use all_is_cubes.Space.Palette.{Blocks}
use all_is_cubes.Math.Vector.{eqb_vec_iff, InRange, eqb_vec, Cube}
use all_is_cubes.Prelude.{
  true, if◌then◌else◌, ◌≡◌, refl, arith, some, none, List, [], ◌∷◌, Bool-cases, inl, inr,
}

pub eqb_vec_refl : (c : Cube) → eqb_vec c c ≡ true
eqb_vec_refl c = (eqb_vec_iff c c).1 refl

module _ {V : Type 0} where
  pub find_cube-insert_at :
      (c d : Cube) (v : V) (m : List (Cube × V))
      → find_cube d (insert_at c v m) ≡ (if eqb_vec c d then some v else find_cube d m)
  unfolding find_cube insert_at
  find_cube-insert_at c d v [] = refl
  find_cube-insert_at c d v ((k, w) ∷ m) = elim (Bool-cases (eqb_vec k c)) [
    | inl here ↦ let e : k ≡ c = (eqb_vec_iff k c).0 here in rw (here) (rw e (ground arith))
    | inr other ↦ elim (Bool-cases (eqb_vec k d)) [
      | inl found ↦
          let e : k ≡ d = (eqb_vec_iff k d).0 found in
          ground (arith, eqb_vec_iff c d, eqb_vec_iff k c, find_cube-insert_at c d v m)
      | inr later ↦ ground (arith, find_cube-insert_at c d v m)
    ]
  ]

module _ (B : Blocks) where
  -- The keys are different cubes of `i32` coordinates.
  abbrev pub Keyed : SpaceTransaction B → Type 0
  Keyed [] = Unit {0}
  Keyed ((c, t) ∷ m) = (find_cube c m ≡ none) × InRange c × Keyed m
