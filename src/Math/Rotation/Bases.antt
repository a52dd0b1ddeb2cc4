-- ===== src/Math/Rotation/Bases.antt =====
-- `GridRotation::from_basis` and `to_basis`, and `is_reflection` with the cross product of faces
-- (all-is-cubes/src/math/rotation.rs, face.rs).
use all_is_cubes.Math.Face.Vectors.{from_discriminant_iff}
use all_is_cubes.Math.Face
use all_is_cubes.Math.Face.Seven
use all_is_cubes.Math.Rotation
use all_is_cubes.Prelude.Run.{ret}
use all_is_cubes.Math.Rotation.Checks.{
  face_eqb-true, &&-true, passes-ret, faces, every_rotation, every_face, passes, all_of,
}
use all_is_cubes.Math.Face.Seven.{into7, face6_try_from, face6_cross, Face7}
use all_is_cubes.Math.Vector.{vec, Vector3}
use all_is_cubes.Math.Rotation.Operations.{is_reflection, transform}
use all_is_cubes.Math.Rotation.Basis.{to_basis, from_basis}
use all_is_cubes.Math.Rotation.{px_py_pz, GridRotation}
use all_is_cubes.Math.Face.{Face6}
use all_is_cubes.Prelude.{
  ◌∙◌, if◌then◌else◌, ◌==◌, some-eq_some, some, ==_iff, sym, none, ◌≡◌, ◌↔◌, refl, Bool, true, ◌&&◌,
}

abbrev from_to_basis : Face6 → Face6 → Face6 → Bool
from_to_basis x y z =
    passes
      (λ r. Face.eqb (to_basis r).x x && (Face.eqb (to_basis r).y y && Face.eqb (to_basis r).z z))
      (from_basis (vec x y z))

from_to_basis_table :
    all_of (λ x. all_of (λ y. all_of (from_to_basis x y) faces) faces) faces ≡ true
unfolding from_basis to_basis Face.eqb
from_to_basis_table = refl

from_basis-to_basis : (r : GridRotation) → from_basis (to_basis r) ≡ ret r
unfolding from_basis to_basis
from_basis-to_basis px_py_pz = refl
from_basis-to_basis _ = refl

to_basis-from_basis : (v : Vector3 Face6) (r : GridRotation) → from_basis v ≡ ret r → v ≡ to_basis r
to_basis-from_basis v r h =
    let rows =
      every_face (λ x. all_of (λ y. all_of (from_to_basis x y) faces) faces) from_to_basis_table
        v.x in
    let row = every_face (λ y. all_of (from_to_basis v.x y) faces) rows v.y in
    let cell = every_face (from_to_basis v.x v.y) row v.z in
    let passed = passes-ret _ (from_basis v) cell h in
    let first = &&-true _ _ passed in
    let rest = &&-true _ _ first.1 in
    rw
      (
        sym (face_eqb-true _ _ first.0),
        sym (face_eqb-true _ _ rest.0),
        sym (face_eqb-true _ _ rest.1),
      )
      refl

-- `from_basis` takes three faces to a rotation exactly if they are that rotation's basis.
pub from_basis_iff :
    (v : Vector3 Face6) (r : GridRotation) → (from_basis v ≡ ret r) ↔ (v ≡ to_basis r)
from_basis_iff v r = (to_basis-from_basis v r, λ h. rw h (from_basis-to_basis r))

-- The rotation of a `Face7`, in which a reflection turns the face around.
abbrev pub rotate_axial : GridRotation → Face7 → Face7
rotate_axial r f = elim (face6_try_from f) [
  | none ↦ Seven.within
  | some g ↦ into7 (let t = transform r g in if is_reflection r then Face.opposite t else t)
]

abbrev axial : GridRotation → Face6 → Face6 → Bool
axial r f g =
    Seven.discriminant (face6_cross (transform r f) (transform r g))
    == Seven.discriminant (rotate_axial r (face6_cross f g))

abbrev axial_row : GridRotation → Face6 → Bool
axial_row r f = all_of (axial r f) faces

axial_table : all_of (λ r. all_of (axial_row r) faces) Rotation.all ≡ true
unfolding transform is_reflection face6_cross face6_try_from into7 Face.opposite Seven.discriminant
axial_table = refl

seven_discriminant_inj : (f g : Face7) → Seven.discriminant f ≡ Seven.discriminant g → f ≡ g
seven_discriminant_inj f g h = some-eq_some (
    sym ((from_discriminant_iff (Seven.discriminant f) f).1 refl)
    ∙ (from_discriminant_iff (Seven.discriminant f) g).1 h)

-- A rotation carries the cross product of two faces to the cross product of their images; if
-- `is_reflection` holds of it, to the opposite of that product.
pub is_reflection-cross :
    (r : GridRotation) (f g : Face6)
    → face6_cross (transform r f) (transform r g) ≡ rotate_axial r (face6_cross f g)
is_reflection-cross r f g =
    let rows = every_rotation (λ r. all_of (axial_row r) faces) axial_table r in
    let cell = every_face (axial r f) (every_face (axial_row r) rows f) g in
    seven_discriminant_inj _ _ ((==_iff _ _).0 cell)
