-- ===== src/Examples/Transforms.antt =====
-- The theorems on `Gridgid` at concrete quarter turns.
use all_is_cubes.Math.Gridgid.Inverting.{inverse-transform_point}
use all_is_cubes.Math.Gridgid.Composing.{mul-transform_point}
use all_is_cubes.Prelude.Run.{i32, ret}
use all_is_cubes.Prelude.Int.{◌*ℤ◌, ◌+ℤ◌, negsuc, pos}
use all_is_cubes.Prelude.{refl, arith, ◌≡◌}
use all_is_cubes.Math.Rotation.{counterclockwise, clockwise}
use all_is_cubes.Math.Vector.{vec, GridPoint}
use all_is_cubes.Math.Gridgid.{transform_point, mul, transform_vector, Gridgid}
use all_is_cubes.Math.Rotation
use all_is_cubes.Math.Gridgid

abbrev turn : Gridgid
turn = record { rotation = clockwise; translation = vec (pos 10) (pos 0) (negsuc 2) }

abbrev flip : Gridgid
flip = record { rotation = Rotation.nx_py_nz; translation = vec (pos 0) (pos 5) (pos 1) }

abbrev both : Gridgid
both = record { rotation = counterclockwise; translation = vec (pos 9) (pos 5) (negsuc 2) }

abbrev point : GridPoint
point = vec (pos 3) (negsuc 0) (pos 7)

abbrev flipped : GridPoint
flipped = vec (negsuc 2) (pos 4) (negsuc 5)

abbrev turned : GridPoint
turned = vec (pos 16) (pos 4) (negsuc 5)

product : mul turn flip ≡ ret both
unfolding mul i32 ◌+ℤ◌ ◌*ℤ◌
product = refl

flips : transform_point flip point ≡ ret flipped
unfolding transform_point i32 ◌+ℤ◌ ◌*ℤ◌
flips = refl

turns : transform_point turn flipped ≡ ret turned
unfolding transform_point i32 ◌+ℤ◌ ◌*ℤ◌
turns = refl

mul-transform_point_example : transform_point both point ≡ ret turned
mul-transform_point_example =
    mul-transform_point turn flip both point flipped turned (omega arith) (omega arith)
      (omega arith) product flips turns

inverse-transform_point_example :
    (h : Gridgid) × (Gridgid.inverse turn ≡ ret h) × (transform_point h turned ≡ ret flipped)
inverse-transform_point_example =
    inverse-transform_point turn flipped turned (omega arith) (omega arith) (omega arith) turns
