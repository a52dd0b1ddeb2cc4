-- ===== src/Math/Rotation/Operations.antt =====
-- all-is-cubes/src/math/rotation.rs: the operations on `GridRotation`.
use all_is_cubes.Math.Vector.{vec}
use all_is_cubes.Math.GridAab.{component}
use all_is_cubes.Prelude.{
  ◌∷◌, ◌==◌, if◌then◌else◌, ℕ, Option, List, Bool, zero, suc, [], none, some, true, false,
}
use all_is_cubes.Prelude.Run.{◌>>◌, assert, unwrap, ret, panic, Run, ◌>>=◌}
use all_is_cubes.Math.Face
use all_is_cubes.Math.Face.{Face6, nx, ny, nz, px, py, pz}
use all_is_cubes.Math.Face.Seven
use all_is_cubes.Math.Rotation.{
  discriminant, GridRotation, identity, clockwise, counterclockwise, nx_py_nz,
}
use all_is_cubes.Math.Rotation.Basis.{from_basis, to_basis}

-- The derived `PartialEq`.
unfoldable pub eqb : GridRotation → GridRotation → Bool
unfolding discriminant
eqb a b = discriminant a == discriminant b

unfoldable pub transform : GridRotation → Face6 → Face6
unfolding to_basis Face.axis_number Face.is_negative Face.opposite
transform r face =
    let p = component (to_basis r) (Face.axis_number face) in
    if Face.is_negative face then Face.opposite p else p

-- `self * rhs`
unfoldable pub mul : GridRotation → GridRotation → Run GridRotation
unfolding from_basis to_basis transform
mul a b =
    let v = to_basis b in from_basis (vec (transform a v.x) (transform a v.y) (transform a v.z))

-- The closure of `iterate`, until it returns `None`. To run out of fuel counts as a panic.
unfoldable pub iterate_from : ℕ → GridRotation → GridRotation → Run (List GridRotation)
unfolding mul eqb
iterate_from zero r item = panic
iterate_from (suc fuel) r item = do
  next ← mul item r
  let more = (iterate_from fuel r next >>= λ rest. ret (next ∷ rest))
  if eqb next identity then ret [] else more

abbrev pub fuel : ℕ
fuel = 48

unfoldable pub iterate : GridRotation → Run (List GridRotation)
unfolding iterate_from
iterate r = iterate_from fuel r identity >>= λ rest. ret (identity ∷ rest)

-- `Iterator::last`
unfoldable pub last {ℓ} : {A : Type ℓ} → List A → Option A
last [] = none
last (x ∷ []) = some x
last (x ∷ y ∷ xs) = last (y ∷ xs)

unfoldable pub inverse : GridRotation → Run GridRotation
unfolding iterate last
inverse r = iterate r >>= λ items. unwrap (last items)

unfoldable pub is_reflection : GridRotation → Bool
unfolding to_basis Seven.face6_cross Seven.discriminant Face.discriminant
is_reflection r =
    let v = to_basis r in
    if Seven.discriminant (Seven.face6_cross v.x v.y) == Face.discriminant v.z then false else true

-- The match on the destination in the canonical frame; `none` is the early return.
unfoldable pub canonical_rotation : Face6 → Option GridRotation
canonical_rotation ny = none
canonical_rotation py = none
canonical_rotation nz = some identity
canonical_rotation px = some clockwise
canonical_rotation pz = some nx_py_nz
canonical_rotation nx = some counterclockwise

unfoldable pub from_frame : Face6 → Face6 → Face6 → Face6 → Run (Option GridRotation)
unfolding from_basis inverse transform canonical_rotation mul Face.opposite is_reflection
from_frame source destination up perpendicular = do
  canonical_to_given ← from_basis (vec perpendicular up (Face.opposite source))
  given_to_canonical ← inverse canonical_to_given
  assert (if is_reflection canonical_to_given then false else true)
  elim (canonical_rotation (transform given_to_canonical destination)) [
    | none ↦ ret none
    | some rotation ↦ do
      there ← mul canonical_to_given rotation
      r ← mul there given_to_canonical
      ret (some r)
  ]

unfoldable pub from_to : Face6 → Face6 → Face6 → Run (Option GridRotation)
unfolding from_frame Seven.face6_cross Seven.face6_try_from Face.eqb
from_to source destination up =
    if Face.eqb source destination
    then ret (some identity)
    else elim (Seven.face6_try_from (Seven.face6_cross source up)) [
      | none ↦ ret none
      | some perpendicular ↦ from_frame source destination up perpendicular
    ]
