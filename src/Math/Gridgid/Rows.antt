-- ===== src/Math/Gridgid/Rows.antt =====
-- The matrix of a rotation (all-is-cubes/src/math/rotation.rs): each row is the normal vector of a face.
use all_is_cubes.Prelude.Int.{
  int_cases, int_laws, eq_of_parts, ◌+ℤ◌, negsuc, neg_part, ◌-ℤ◌, pos, InI32, ◌*ℤ◌, ℤ,
}
use all_is_cubes.Prelude.{
  ◌^◌, ◌<◌, refl, [], true, if◌then◌else◌, arith, ◌≡◌, ◌∷◌, ◌&&◌, Bool, List,
}
use all_is_cubes.Math.Vector.{vec, eqb_vec, InRange, GridVector}
use all_is_cubes.Math.Rotation.Checks.{
  every_rotation, every_face, &&-true, face_eqb-true, faces, all_of,
}
use all_is_cubes.Math.Rotation.Basis.{to_basis}
use all_is_cubes.Math.Rotation.{GridRotation}
use all_is_cubes.Math.Face.Seven.{face6_normal_vector}
use all_is_cubes.Math.Rotation
use all_is_cubes.Math.Face
use all_is_cubes.Math.Face.{Face6, nx, ny, nz, px, py, pz}
use all_is_cubes.Math.Rotation.Operations.{transform}

abbrev pub negate : ℤ → ℤ
negate z = pos 0 -ℤ z

-- The component of a vector in the direction of a face.
abbrev pub coordinate : Face6 → GridVector → ℤ
coordinate nx v = negate v.x
coordinate ny v = negate v.y
coordinate nz v = negate v.z
coordinate px v = v.x
coordinate py v = v.y
coordinate pz v = v.z

-- The face that the rotation takes to `g`, of those in the list.
abbrev source_in : List Face6 → GridRotation → Face6 → Face6
source_in [] r g = g
source_in (f ∷ fs) r g = if Face.eqb (transform r f) g then f else source_in fs r g

abbrev pub source : GridRotation → Face6 → Face6
source r g = source_in faces r g

-- A vector is rotated to the one that has in each direction what it has in the one that the rotation
-- takes there.
abbrev pub rotated : GridRotation → GridVector → GridVector
rotated r v =
    vec (coordinate (source r px) v) (coordinate (source r py) v) (coordinate (source r pz) v)

-- No component is the least `i32`.
abbrev pub IsBalanced : GridVector → Type 0
IsBalanced v =
    InRange v × (neg_part v.x < 2 ^ 31) × (neg_part v.y < 2 ^ 31) × (neg_part v.z < 2 ^ 31)

source_table :
    all_of
      (λ r.
        all_of
          (λ f. Face.eqb (transform r (source r f)) f && Face.eqb (source r (transform r f)) f)
          faces)
      Rotation.all
    ≡ true
unfolding transform Face.eqb
source_table = refl

pub transform-source : (r : GridRotation) (f : Face6) → transform r (source r f) ≡ f
transform-source r f =
    face_eqb-true _ _
      (&&-true _ _ (
        every_face
          (λ f. Face.eqb (transform r (source r f)) f && Face.eqb (source r (transform r f)) f)
          (every_rotation
            (λ r.
              all_of
                (λ f.
                  Face.eqb (transform r (source r f)) f && Face.eqb (source r (transform r f)) f)
                faces)
            source_table r)
          f)).0

pub source-transform : (r : GridRotation) (f : Face6) → source r (transform r f) ≡ f
source-transform r f =
    face_eqb-true _ _
      (&&-true _ _ (
        every_face
          (λ f. Face.eqb (transform r (source r f)) f && Face.eqb (source r (transform r f)) f)
          (every_rotation
            (λ r.
              all_of
                (λ f.
                  Face.eqb (transform r (source r f)) f && Face.eqb (source r (transform r f)) f)
                faces)
            source_table r)
          f)).1

-- The three columns of a rotation are those of the sources.
abbrev pub column : GridRotation → (GridVector → ℤ) → GridVector
column r part =
    vec (part (face6_normal_vector (source r px))) (part (face6_normal_vector (source r py)))
      (part (face6_normal_vector (source r pz)))

abbrev pub columns_agree : GridRotation → Bool
columns_agree r =
    eqb_vec (face6_normal_vector (to_basis r).x) (column r (λ v. v.x))
    && (eqb_vec (face6_normal_vector (to_basis r).y) (column r (λ v. v.y))
        && eqb_vec (face6_normal_vector (to_basis r).z) (column r (λ v. v.z)))

pub columns_table : all_of columns_agree Rotation.all ≡ true
unfolding to_basis face6_normal_vector eqb_vec transform Face.eqb
columns_table = refl

-- A row of the matrix, which is the normal vector of a face, times a vector.
pub record IsRow (f : Face6) (v : GridVector) : Type 0 where
  pub first : InI32 ((face6_normal_vector f).x *ℤ v.x)
  pub second : InI32 ((face6_normal_vector f).y *ℤ v.y)
  pub third : InI32 ((face6_normal_vector f).z *ℤ v.z)
  pub sum : InI32 ((face6_normal_vector f).x *ℤ v.x +ℤ (face6_normal_vector f).y *ℤ v.y)
  pub total :
      (face6_normal_vector f).x *ℤ v.x
        +ℤ (face6_normal_vector f).y *ℤ v.y
        +ℤ (face6_normal_vector f).z *ℤ v.z
      ≡ coordinate f v
  pub result_in : InI32 (coordinate f v)

by_zero : (z : ℤ) → pos 0 *ℤ z ≡ pos 0
unfolding ◌*ℤ◌
by_zero z = ground arith

by_one : (z : ℤ) → pos 1 *ℤ z ≡ z
unfolding ◌*ℤ◌
by_one z = ground arith

by_minus_one : (z : ℤ) → negsuc 0 *ℤ z ≡ negate z
unfolding ◌*ℤ◌ ◌-ℤ◌
by_minus_one z = ground arith

zero_in : InI32 (pos 0)
zero_in = omega arith

module _ (f : Face6) (v : GridVector) (a b c : ℤ) (at_x : (face6_normal_vector f).x *ℤ v.x ≡ a)
    (at_y : (face6_normal_vector f).y *ℤ v.y ≡ b)
    (at_z : (face6_normal_vector f).z *ℤ v.z ≡ c) where
  of_parts :
      InI32 a
      → InI32 b
      → InI32 c
      → InI32 (a +ℤ b)
      → a +ℤ b +ℤ c ≡ coordinate f v
      → InI32 (coordinate f v)
      → IsRow f v
  of_parts p q r s t w = record {
    first = rw at_x p;
    second = rw at_y q;
    third = rw at_z r;
    sum = rw (at_x, at_y) s;
    total = rw (at_x, at_y, at_z) t;
    result_in = w;
  }

add_zero : (z : ℤ) → z +ℤ pos 0 ≡ z
add_zero z = eq_of_parts _ _ (omega int_cases)

zero_add : (z : ℤ) → pos 0 +ℤ z ≡ z
zero_add z = eq_of_parts _ _ (omega int_cases)

-- The normal vector along `x`, `y` or `z`; `w` is the component, with its sign.
IsRow-along_x :
    (f : Face6) (v : GridVector)
    → (face6_normal_vector f).x *ℤ v.x ≡ coordinate f v
    → (face6_normal_vector f).y ≡ pos 0
    → (face6_normal_vector f).z ≡ pos 0
    → InI32 (coordinate f v)
    → IsRow f v
IsRow-along_x f v p q r w =
    let z = coordinate f v in
    of_parts f v z (pos 0) (pos 0) p (rw q (by_zero v.y)) (rw r (by_zero v.z)) w zero_in zero_in
      (rw (add_zero z) w) (rw (add_zero z) (add_zero z)) w

IsRow-along_y :
    (f : Face6) (v : GridVector)
    → (face6_normal_vector f).x ≡ pos 0
    → (face6_normal_vector f).y *ℤ v.y ≡ coordinate f v
    → (face6_normal_vector f).z ≡ pos 0
    → InI32 (coordinate f v)
    → IsRow f v
IsRow-along_y f v p q r w =
    let z = coordinate f v in
    of_parts f v (pos 0) z (pos 0) (rw p (by_zero v.x)) q (rw r (by_zero v.z)) zero_in w zero_in
      (rw (zero_add z) w) (rw (zero_add z) (add_zero z)) w

IsRow-along_z :
    (f : Face6) (v : GridVector)
    → (face6_normal_vector f).x ≡ pos 0
    → (face6_normal_vector f).y ≡ pos 0
    → (face6_normal_vector f).z *ℤ v.z ≡ coordinate f v
    → InI32 (coordinate f v)
    → IsRow f v
IsRow-along_z f v p q r w =
    let z = coordinate f v in
    of_parts f v (pos 0) (pos 0) z (rw p (by_zero v.x)) (rw q (by_zero v.y)) r zero_in zero_in w
      (rw (zero_add (pos 0)) zero_in) (rw (zero_add (pos 0)) (zero_add z)) w

pub coordinate_in : (f : Face6) (v : GridVector) → IsBalanced v → InI32 (coordinate f v)
coordinate_in nx v h = omega int_laws
coordinate_in ny v h = omega int_laws
coordinate_in nz v h = omega int_laws
coordinate_in px v h = h.0.0
coordinate_in py v h = h.0.1
coordinate_in pz v h = h.0.2

pub rows : (f : Face6) (v : GridVector) → IsBalanced v → IsRow f v
unfolding face6_normal_vector
rows nx v h = IsRow-along_x nx v (by_minus_one v.x) refl refl (coordinate_in nx v h)
rows px v h = IsRow-along_x px v (by_one v.x) refl refl (coordinate_in px v h)
rows ny v h = IsRow-along_y ny v refl (by_minus_one v.y) refl (coordinate_in ny v h)
rows py v h = IsRow-along_y py v refl (by_one v.y) refl (coordinate_in py v h)
rows nz v h = IsRow-along_z nz v refl refl (by_minus_one v.z) (coordinate_in nz v h)
rows pz v h = IsRow-along_z pz v refl refl (by_one v.z) (coordinate_in pz v h)
