-- ===== src/Examples/Rotations.antt =====
-- The theorems on faces and rotations at concrete arguments.
use all_is_cubes.Math.Rotation.Facing.{from_to-Answer, Answer}
use all_is_cubes.Math.Face.{Face6}
use all_is_cubes.Prelude.Run.{ret}
use all_is_cubes.Math.Rotation.Operations.{mul, inverse, from_to}
use all_is_cubes.Math.Rotation.Group.{inverse_lem}
use all_is_cubes.Math.Rotation.{identity, GridRotation}
use all_is_cubes.Math.Face
use all_is_cubes.Math.Rotation
use all_is_cubes.Prelude.{Option, ◌≡◌}

inverse_lem_example :
    (s : GridRotation) × (inverse Rotation.py_pz_px ≡ ret s)
    × (mul Rotation.py_pz_px s ≡ ret identity)
    × (mul s Rotation.py_pz_px ≡ ret identity)
inverse_lem_example = inverse_lem Rotation.py_pz_px

from_to-Answer_example :
    (o : Option GridRotation) × (from_to Face.nz Face.px Face.py ≡ ret o)
    × Answer Face.nz Face.px Face.py o
from_to-Answer_example = from_to-Answer Face.nz Face.px Face.py
