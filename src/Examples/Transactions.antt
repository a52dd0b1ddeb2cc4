-- ===== src/Examples/Transactions.antt =====
-- The theorems on transactions at a concrete space of two cubes.
use all_is_cubes.Space.Transaction.Bounds.{
  bounds_only_cubes-IsLeast, IsLeast, bounds_only_cubes, AllInside,
}
use all_is_cubes.Math.GridAab.Union.{union-ok, IsHull, Encloses}
use all_is_cubes.Math.GridAab.{GridAab}
use all_is_cubes.Math.GridAab.Operations
use all_is_cubes.Math.GridAab.Volume.{IsValid}
use all_is_cubes.Space.Transaction.Committing.{commit-Finishes, Finishes}
use all_is_cubes.Space.Transaction.Applying.{OffEdge}
use all_is_cubes.Space.Transaction.Checking.{check_iff, AllFit}
use all_is_cubes.Space.Transaction.Agreeing.{JoinsAt}
use all_is_cubes.Space.Transaction.Merging.{
  commit_merge_cube_comm_iff, check_merge_iff, larger, find_cube-commit_merge, smaller, leading,
  following, AllCompatible,
}
use all_is_cubes.Space.Transaction.Cubes.{Keyed}
use all_is_cubes.Prelude.Int.{negsuc, ◌+ℤ◌, ◌-ℤ◌, pos}
use all_is_cubes.Space.Transaction.{
  committed, differ, CheckFailure, find_cube, commit_merge_cube, check_merge_cube, check_change,
  SpaceTransaction, Change,
}
use all_is_cubes.Space.Storage.{read, SetCubeError, State}
use all_is_cubes.Prelude.Run.{ret, ok, Result}
use all_is_cubes.Prelude.{Option, true, refl, false, [], List, ◌∷◌, ◌↔◌, some, none, arith, ◌≡◌}
use all_is_cubes.Math.Vector.{vec, eqb_vec, Cube}
use all_is_cubes.Space.Transaction
use all_is_cubes.Math.GridAab
use all_is_cubes.Space.Palette
use all_is_cubes.Examples.Spaces.{
  number_blocks, number_optics, evaluate, space, space-IsSound, outside,
}

abbrev at_origin : Cube
at_origin = vec (pos 0) (pos 0) (pos 0)

-- Stone is replaced, and the cube outside is tolerated.
abbrev replacement : Change number_blocks
replacement = record { old = some 7; new = some 9; conserved = true; activate = true }

abbrev spill : Change number_blocks
spill = record { old = none; new = some 5; conserved = false; activate = false }

abbrev other_spill : Change number_blocks
other_spill = record { old = none; new = some 6; conserved = false; activate = false }

abbrev changes : SpaceTransaction number_blocks
changes = (at_origin, replacement) ∷ (outside, spill) ∷ []

abbrev more : SpaceTransaction number_blocks
more = (outside, other_spill) ∷ []

changes-Keyed : Keyed number_blocks changes
unfolding find_cube eqb_vec
changes-Keyed = (refl, omega arith, (refl, omega arith, tt))

more-Keyed : Keyed number_blocks more
unfolding find_cube eqb_vec
more-Keyed = (refl, omega arith, tt)

changes-OffEdge : OffEdge number_blocks number_optics changes
changes-OffEdge = (ground arith, (ground arith, tt))

checked : Transaction.check number_blocks number_optics changes space ≡ ret (ok tt)
unfolding Transaction.check check_change GridAab.index Palette.entry read ◌-ℤ◌ ◌+ℤ◌
checked = refl

check_iff_example :
    (r : Result CheckFailure (Unit {0})) × (Transaction.check number_blocks number_optics changes
        space
      ≡ ret r)
    × ((r ≡ ok tt) ↔ AllFit number_blocks number_optics space changes)
check_iff_example = check_iff number_blocks number_optics space changes space-IsSound changes-Keyed

commit-Finishes_example :
    (u : State number_blocks number_optics) × (r : Result SetCubeError (List Cube))
    × (Transaction.commit number_blocks number_optics evaluate changes space
        ≡ ret (committed number_blocks number_optics u r))
    × Finishes number_blocks number_optics space changes [] u r
commit-Finishes_example =
    commit-Finishes number_blocks number_optics evaluate space changes space-IsSound changes-Keyed
      changes-OffEdge checked

spills_check : check_merge_cube number_blocks spill other_spill ≡ ok tt
unfolding check_merge_cube
spills_check = refl

find_cube-commit_merge_example :
    JoinsAt number_blocks
      (find_cube outside (leading number_blocks changes more))
      (find_cube outside (following number_blocks changes more))
      (find_cube outside (Transaction.commit_merge number_blocks changes more))
find_cube-commit_merge_example =
    find_cube-commit_merge number_blocks changes more outside changes-Keyed more-Keyed

check_merge_iff_example :
    (Transaction.check_merge number_blocks changes more ≡ ok tt)
    ↔ AllCompatible number_blocks
        (smaller number_blocks changes more)
        (larger number_blocks changes more)
check_merge_iff_example = check_merge_iff number_blocks changes more changes-Keyed more-Keyed

commit_merge_cube_comm_iff_example :
    (Transaction.commit_merge_cube number_blocks spill other_spill
      ≡ Transaction.commit_merge_cube number_blocks other_spill spill)
    ↔ (differ number_blocks (some 5) (some 6) ≡ false)
commit_merge_cube_comm_iff_example =
    unfold check_merge_cube differ in
    commit_merge_cube_comm_iff number_blocks spill other_spill refl

abbrev region : GridAab
region = record {
  lower_bounds = vec (negsuc 9) (negsuc 9) (negsuc 9);
  sizes = vec (pos 20) (pos 20) (pos 20);
}

region-IsValid : IsValid region
unfolding ◌+ℤ◌
region-IsValid = record {
  lower_in = omega arith;
  sizes_in = omega arith;
  x_axis = omega arith;
  y_axis = omega arith;
  z_axis = omega arith;
  volume_lt = omega arith;
}

changes-AllInside : AllInside number_blocks region changes
unfolding ◌+ℤ◌
changes-AllInside = (omega arith, (omega arith, tt))

bounds_only_cubes-IsLeast_example :
    (r : Option GridAab) × (bounds_only_cubes number_blocks changes ≡ ret r)
    × IsLeast number_blocks changes r
bounds_only_cubes-IsLeast_example =
    bounds_only_cubes-IsLeast number_blocks region changes region-IsValid changes-AllInside

abbrev left_box : GridAab
left_box = record {
  lower_bounds = vec (negsuc 1) (pos 0) (pos 0);
  sizes = vec (pos 2) (pos 3) (pos 1);
}

abbrev right_box : GridAab
right_box = record {
  lower_bounds = vec (pos 4) (negsuc 3) (pos 1);
  sizes = vec (pos 1) (pos 2) (pos 3);
}

left_box-IsValid : IsValid left_box
unfolding ◌+ℤ◌
left_box-IsValid = record {
  lower_in = omega arith;
  sizes_in = omega arith;
  x_axis = omega arith;
  y_axis = omega arith;
  z_axis = omega arith;
  volume_lt = omega arith;
}

right_box-IsValid : IsValid right_box
unfolding ◌+ℤ◌
right_box-IsValid = record {
  lower_in = omega arith;
  sizes_in = omega arith;
  x_axis = omega arith;
  y_axis = omega arith;
  z_axis = omega arith;
  volume_lt = omega arith;
}

region-left : Encloses region left_box
unfolding ◌+ℤ◌
region-left = omega arith

region-right : Encloses region right_box
unfolding ◌+ℤ◌
region-right = omega arith

union-ok_example :
    (u : GridAab) × (Operations.union left_box right_box ≡ ret (ok u)) × IsHull left_box right_box u
union-ok_example =
    union-ok left_box right_box region left_box-IsValid right_box-IsValid region-IsValid region-left
      region-right
