-- ===== src/Math/Rotation/Facing.antt =====
-- `GridRotation::from_to` (all-is-cubes/src/math/rotation.rs).
use all_is_cubes.Prelude.Run.{ret}
use all_is_cubes.Math.Rotation.Checks.{
  returns-true, face_eqb-true, every_face, &&-true, faces, all_of, returns,
}
use all_is_cubes.Math.Rotation.{GridRotation}
use all_is_cubes.Math.Rotation.Operations.{is_reflection, transform, from_to}
use all_is_cubes.Math.Face.{Face6}
use all_is_cubes.Math.Face
use all_is_cubes.Prelude.{
  arith, none, some, ◌||◌, not, ◌==◌, Option, ◌≡◌, refl, Bool, true, false, ◌&&◌,
}

-- The rotation wanted: it takes `source` to `destination`, keeps `up`, and reflects nothing.
abbrev pub Turns : Face6 → Face6 → Face6 → GridRotation → Type 0
Turns source destination up r =
    (transform r source ≡ destination) × (transform r up ≡ up) × (is_reflection r ≡ false)

-- `up` lies on the axis of the face.
abbrev pub parallel : Face6 → Face6 → Bool
parallel f up = Face.axis_number f == Face.axis_number up

abbrev turns : Face6 → Face6 → Face6 → GridRotation → Bool
turns source destination up r =
    Face.eqb (transform r source) destination
    && (Face.eqb (transform r up) up && not (is_reflection r))

abbrev facing : Face6 → Face6 → Face6 → Option GridRotation → Bool
facing source destination up none =
    not (Face.eqb source destination) && (parallel source up || parallel destination up)
facing source destination up (some r) = turns source destination up r

abbrev facing_at : Face6 → Face6 → Face6 → Bool
facing_at source destination up =
    returns (facing source destination up) (from_to source destination up)

facing_table : all_of (λ s. all_of (λ d. all_of (facing_at s d) faces) faces) faces ≡ true
unfolding from_to Face.eqb Face.axis_number transform is_reflection
facing_table = refl

-- What each answer of `from_to` promises.
abbrev pub Answer : Face6 → Face6 → Face6 → Option GridRotation → Type 0
Answer source destination up none =
    (Face.eqb source destination ≡ false) × ((parallel source up || parallel destination up) ≡ true)
Answer source destination up (some r) = Turns source destination up r

not-true : (b : Bool) → not b ≡ true → b ≡ false
not-true b h = ground arith

facing-true : (s d u : Face6) (o : Option GridRotation) → facing s d u o ≡ true → Answer s d u o
facing-true s d u none h = let both = &&-true _ _ h in (not-true _ both.0, both.1)
facing-true s d u (some r) h =
    let both = &&-true _ _ h in
    let rest = &&-true _ _ both.1 in
    (face_eqb-true _ _ both.0, face_eqb-true _ _ rest.0, not-true _ rest.1)

-- `from_to` never panics. A rotation that it returns turns the source to the destination, keeps
-- `up` and is no reflection; it returns none only if the source is not the destination and `up`
-- is parallel to one of them.
pub from_to-Answer :
    (source destination up : Face6)
    → (o : Option GridRotation) × (from_to source destination up ≡ ret o)
      × Answer source destination up o
from_to-Answer source destination up =
    let rows =
      every_face (λ s. all_of (λ d. all_of (facing_at s d) faces) faces) facing_table source in
    let row = every_face (λ d. all_of (facing_at source d) faces) rows destination in
    let cell = every_face (facing_at source destination) row up in
    let found = returns-true (facing source destination up) (from_to source destination up) cell in
    (found.0, found.1, facing-true source destination up found.0 found.2)
