-- ===== src/Math/Gridgid.antt =====
-- all-is-cubes/src/math/rigid.rs: `Gridgid`, a rotation followed by a translation; and the rotation of
-- vectors by all-is-cubes/src/math/rotation.rs.
pub mod Rows
pub mod Acting
pub mod Composing
pub mod Inverting
use all_is_cubes.Prelude.Int.{min_ℤ, pos}
use all_is_cubes.Math.Face.Seven.{face6_normal_vector}
use all_is_cubes.Prelude.Run.{ret, Run}
use all_is_cubes.Math.Vector.{scale, vec, GridPoint, Cube, neg, add, GridVector}
use all_is_cubes.Math.Rotation.Basis.{to_basis}
use all_is_cubes.Math.Rotation.{identity, GridRotation}
use all_is_cubes.Math.GridAab.{cube_upper_bounds}
use all_is_cubes.Math.Rotation.Operations
use all_is_cubes.Prelude.Run.{◌>>=◌}
use all_is_cubes.Math.GridAab.Operations.{zip_with}

-- `GridRotation::transform_vector`
unfoldable pub transform_vector : GridRotation → GridVector → Run GridVector
unfolding to_basis face6_normal_vector scale add
transform_vector r v = do
  let basis = to_basis r
  a ← scale (face6_normal_vector basis.x) v.x
  b ← scale (face6_normal_vector basis.y) v.y
  ab ← add a b
  c ← scale (face6_normal_vector basis.z) v.z
  add ab c

pub record Gridgid : Type 0 where
  pub rotation : GridRotation
  pub translation : GridVector

abbrev pub no_translation : GridVector
no_translation = vec (pos 0) (pos 0) (pos 0)

unfoldable pub from_rotation_about_origin : GridRotation → Gridgid
from_rotation_about_origin r = record { rotation = r; translation = no_translation }

unfoldable pub from_translation : GridVector → Gridgid
from_translation v = record { rotation = identity; translation = v }

unfoldable pub transform_point : Gridgid → GridPoint → Run GridPoint
unfolding transform_vector add
transform_point g p = do rotated ← transform_vector g.rotation p; add rotated g.translation

unfoldable pub transform_cube : Gridgid → Cube → Run Cube
unfolding transform_point cube_upper_bounds
transform_cube g c = do
  a ← transform_point g c
  upper ← cube_upper_bounds c
  b ← transform_point g upper
  ret (zip_with min_ℤ a b)

unfoldable pub inverse : Gridgid → Run Gridgid
unfolding Operations.inverse neg transform_vector
inverse g = do
  r ← Operations.inverse g.rotation
  back ← neg g.translation
  t ← transform_vector r back
  ret (record { rotation = r; translation = t })

-- `self * rhs`
unfoldable pub mul : Gridgid → Gridgid → Run Gridgid
unfolding Operations.mul transform_point
mul a b = do
  r ← Operations.mul a.rotation b.rotation
  t ← transform_point a b.translation
  ret (record { rotation = r; translation = t })
