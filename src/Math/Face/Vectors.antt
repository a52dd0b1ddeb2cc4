-- ===== src/Math/Face/Vectors.antt =====
-- The methods of `Face7` (all-is-cubes/src/math/face.rs) against integer vectors.
use all_is_cubes.Prelude.{ℕ, ◌≡◌, ◌↔◌, refl, some, arith}
use all_is_cubes.Prelude.Int.{ℤ, pos, negsuc, ◌+ℤ◌, ◌-ℤ◌, ◌*ℤ◌}
use all_is_cubes.Math.Vector.{GridVector, vec, eqb_vec, eqb_vec_iff}
use all_is_cubes.Math.Face.Seven
use all_is_cubes.Math.Face.Seven.{
  Face7, within, nx, ny, nz, px, py, pz, cross, normal_vector, face7_try_from, face6_of_vector,
  into7, face6_normal_vector, face6_cross, dot,
}

-- The cross product and the dot product of vectors, exactly.
abbrev pub cross_product : GridVector → GridVector → GridVector
cross_product v w =
    vec (v.y *ℤ w.z -ℤ v.z *ℤ w.y) (v.z *ℤ w.x -ℤ v.x *ℤ w.z) (v.x *ℤ w.y -ℤ v.y *ℤ w.x)

abbrev pub dot_product : GridVector → GridVector → ℤ
dot_product v w = v.x *ℤ w.x +ℤ v.y *ℤ w.y +ℤ v.z *ℤ w.z

-- `Face7::cross` is the cross product of the normal vectors, for all pairs of faces.
pub normal_vector-cross :
    (f g : Face7) → normal_vector (cross f g) ≡ cross_product (normal_vector f) (normal_vector g)
unfolding cross normal_vector ◌*ℤ◌ ◌-ℤ◌
normal_vector-cross within within = refl
normal_vector-cross within _ = refl
normal_vector-cross nx within = refl
normal_vector-cross nx _ = refl
normal_vector-cross ny within = refl
normal_vector-cross ny _ = refl
normal_vector-cross nz within = refl
normal_vector-cross nz _ = refl
normal_vector-cross px within = refl
normal_vector-cross px _ = refl
normal_vector-cross py within = refl
normal_vector-cross py _ = refl
normal_vector-cross pz within = refl
normal_vector-cross pz _ = refl

face7_try_from-normal_vector : (f : Face7) → face7_try_from (normal_vector f) ≡ some f
unfolding face7_try_from normal_vector eqb_vec
face7_try_from-normal_vector within = refl
face7_try_from-normal_vector _ = refl

-- A vector converts to a face exactly if it is the normal vector of that face.
pub face7_try_from_iff :
    (v : GridVector) (f : Face7) → (face7_try_from v ≡ some f) ↔ (v ≡ normal_vector f)
unfolding face7_try_from normal_vector
face7_try_from_iff v f = (
  λ h. ground (
    arith,
    (eqb_vec_iff v (vec (pos 0) (pos 0) (pos 0))).0,
    (eqb_vec_iff v (vec (pos 1) (pos 0) (pos 0))).0,
    (eqb_vec_iff v (vec (pos 0) (pos 1) (pos 0))).0,
    (eqb_vec_iff v (vec (pos 0) (pos 0) (pos 1))).0,
    (eqb_vec_iff v (vec (negsuc 0) (pos 0) (pos 0))).0,
    (eqb_vec_iff v (vec (pos 0) (negsuc 0) (pos 0))).0,
    (eqb_vec_iff v (vec (pos 0) (pos 0) (negsuc 0))).0,
  ),
  λ h. rw h (face7_try_from-normal_vector f),
)

-- The numbering of the faces: a number converts to a face exactly if it is that face's.
pub from_discriminant_iff :
    (d : ℕ) (f : Face7) → (Seven.from_discriminant d ≡ some f) ↔ (d ≡ Seven.discriminant f)
unfolding Seven.from_discriminant Seven.discriminant
from_discriminant_iff d f = (λ h. ground arith, λ h. rw h (number f))
  where
    number : (f : Face7) → Seven.from_discriminant (Seven.discriminant f) ≡ some f
    number within = refl
    number _ = refl

-- Opposite faces have opposite vectors, and the opposite of the opposite is the face.
pub opposite_lem :
    (f : Face7)
    → (Seven.opposite (Seven.opposite f) ≡ f)
      × (normal_vector (Seven.opposite f)
          ≡ vec
              (pos 0 -ℤ (normal_vector f).x)
              (pos 0 -ℤ (normal_vector f).y)
              (pos 0 -ℤ (normal_vector f).z))
unfolding Seven.opposite normal_vector ◌-ℤ◌
opposite_lem within = (refl, refl)
opposite_lem _ = (refl, refl)
