-- ===== src/Examples/Boxes.antt =====
-- The theorems on `GridAab` at a concrete box.
use all_is_cubes.Math.GridAab.Iter.Order.{next-Follows, Follows, at_cube}
use all_is_cubes.Math.GridAab.Iter.{
  next, fold, next_row, advance, fold_row, fold_plane, fold_planes, size_hint, cubes_remaining,
  usize, unwrap_usize,
}
use all_is_cubes.Math.GridAab.Iter.Planes.{Folds}
use all_is_cubes.Math.GridAab.Iter.Folding.{fold-Folds}
use all_is_cubes.Math.GridAab.Iter.Size.{size_hint-Folds}
use all_is_cubes.Math.GridAab.Intersection.{intersection-Meets, Meets}
use all_is_cubes.Math.GridAab.Operations.{intersection}
use all_is_cubes.Prelude.Run.{ret, i32}
use all_is_cubes.Math.GridAab.Index.{index_iff, position, Inside}
use all_is_cubes.Math.GridAab.Volume.{IsValid}
use all_is_cubes.Prelude.Int.{ltb_ℤ, ◌-ℤ◌, negsuc, pos, ◌+ℤ◌}
use all_is_cubes.Math.Vector.{vec, Cube}
use all_is_cubes.Math.GridAab.{index_of, index, GridAab}
use all_is_cubes.Prelude.{inl, if◌then◌else◌, ℕ, ◌+◌, Option, ◌↔◌, some, ◌≡◌, refl, arith}

abbrev box : GridAab
box = record {
  lower_bounds = vec (pos 10) (pos 0) (negsuc 4);
  sizes = vec (pos 5) (pos 10) (pos 3);
}

abbrev corner : Cube
corner = vec (pos 14) (pos 9) (negsuc 2)

box-IsValid : IsValid box
unfolding ◌+ℤ◌
box-IsValid = record {
  lower_in = omega arith;
  sizes_in = omega arith;
  x_axis = omega arith;
  y_axis = omega arith;
  z_axis = omega arith;
  volume_lt = omega arith;
}

index_iff_example :
    (index box corner ≡ some 149) ↔ (Inside box corner × (149 ≡ position box corner))
index_iff_example = index_iff box corner 149 box-IsValid (omega arith)

at_corner : index box corner ≡ some 149
unfolding index index_of ◌-ℤ◌
at_corner = refl

abbrev neighbor : GridAab
neighbor = record {
  lower_bounds = vec (pos 12) (pos 5) (negsuc 4);
  sizes = vec (pos 9) (pos 9) (pos 1);
}

neighbor-IsValid : IsValid neighbor
unfolding ◌+ℤ◌
neighbor-IsValid = record {
  lower_in = omega arith;
  sizes_in = omega arith;
  x_axis = omega arith;
  y_axis = omega arith;
  z_axis = omega arith;
  volume_lt = omega arith;
}

intersection-Meets_example :
    (r : Option GridAab) × (intersection box neighbor ≡ ret r) × Meets box neighbor r
intersection-Meets_example = intersection-Meets box neighbor box-IsValid neighbor-IsValid

abbrev row_end : Cube
row_end = vec (pos 12) (pos 3) (negsuc 2)

row_end-Inside : Inside box row_end
unfolding ◌+ℤ◌
row_end-Inside = omega arith

next-Follows_example :
    (d : Cube) × (next (at_cube box row_end) ≡ ret (some row_end, at_cube box d))
    × Follows box row_end d
next-Follows_example = next-Follows box row_end box-IsValid row_end-Inside

-- The number of cubes below the fourth layer.
abbrev count_low : ℕ → Cube → ℕ
count_low n c = if ltb_ℤ c.y (pos 3) then n + 1 else n

fold-Folds_example :
    (s : ℕ) × (fold count_low 151 (at_cube box row_end) 7 ≡ ret (some s))
    × Folds count_low (at_cube box row_end) 7 s
fold-Folds_example = fold-Folds count_low box row_end 7 box-IsValid row_end-Inside

-- Of the planes after the one of `row_end` there are two, with nine cubes each in the three layers.
folded : fold count_low 151 (at_cube box row_end) 7 ≡ ret (some 25)
unfolding fold advance next next_row fold_row fold_plane fold_planes ◌+ℤ◌ ◌-ℤ◌ i32
folded = refl

size_hint-Folds_example :
    (n : ℕ) × (size_hint (at_cube box row_end) ≡ ret (n, some n))
    × Folds (λ (k : ℕ) (_ : Cube). k + 1) (at_cube box row_end) 0 n
size_hint-Folds_example = size_hint-Folds box row_end box-IsValid (inl row_end-Inside)

hinted : size_hint (at_cube box row_end) ≡ ret (79, some 79)
unfolding size_hint cubes_remaining usize unwrap_usize ◌+ℤ◌ ◌-ℤ◌ i32
hinted = refl
