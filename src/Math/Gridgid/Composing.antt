-- ===== src/Math/Gridgid/Composing.antt =====
-- The composition of `Gridgid`s (all-is-cubes/src/math/rigid.rs).
use all_is_cubes.Math.Gridgid.Acting.{add-ret, transform_vector-ret}
use all_is_cubes.Math.Gridgid.Rows.{
  source-transform, transform-source, negate, source, rotated, coordinate, IsBalanced,
}
use all_is_cubes.Math.Rotation.Group.{mul-transform}
use all_is_cubes.Prelude.Run.{ret-eq_ret, >>=-eq-ret, ret}
use all_is_cubes.Prelude.Int.{int_cases, eq_of_parts, ◌+ℤ◌, ℤ}
use all_is_cubes.Prelude.{subst, sym, refl, ap, ◌∙◌, true, ◌≡◌, Bool}
use all_is_cubes.Math.Vector.{run_vec-eq_ret, vec_eq, InRange, GridPoint, add_vec, add, GridVector}
use all_is_cubes.Math.Rotation.Checks.{every_rotation, every_face, face_eqb-true, faces, all_of}
use all_is_cubes.Math.Rotation.{GridRotation}
use all_is_cubes.Math.Gridgid.{transform_vector, Gridgid, transform_point, mul}
use all_is_cubes.Math.Rotation
use all_is_cubes.Math.Face
use all_is_cubes.Math.Rotation.Operations
use all_is_cubes.Math.Rotation.Operations.{transform}
use all_is_cubes.Math.Face.{nx, ny, nz, px, py, pz, Face6}

coordinate-opposite :
    (f : Face6) (v : GridVector) → coordinate (Face.opposite f) v ≡ negate (coordinate f v)
unfolding Face.opposite
coordinate-opposite px v = refl
coordinate-opposite py v = refl
coordinate-opposite pz v = refl
coordinate-opposite nx v = eq_of_parts _ _ (omega int_cases)
coordinate-opposite ny v = eq_of_parts _ _ (omega int_cases)
coordinate-opposite nz v = eq_of_parts _ _ (omega int_cases)

abbrev opposites : GridRotation → Face6 → Bool
opposites r f = Face.eqb (source r (Face.opposite f)) (Face.opposite (source r f))

opposites_table : all_of (λ r. all_of (opposites r) faces) Rotation.all ≡ true
unfolding transform Face.eqb Face.opposite
opposites_table = refl

source-opposite :
    (r : GridRotation) (f : Face6) → source r (Face.opposite f) ≡ Face.opposite (source r f)
source-opposite r f = face_eqb-true _ _ (
    every_face (opposites r) (every_rotation (λ r. all_of (opposites r) faces) opposites_table r) f)

coordinate-rotated :
    (r : GridRotation) (v : GridVector) (f : Face6)
    → coordinate f (rotated r v) ≡ coordinate (source r f) v
unfolding Face.opposite
coordinate-rotated r v px = refl
coordinate-rotated r v py = refl
coordinate-rotated r v pz = refl
coordinate-rotated r v nx =
    sym (ap (λ f. coordinate f v) (source-opposite r px) ∙ coordinate-opposite (source r px) v)
coordinate-rotated r v ny =
    sym (ap (λ f. coordinate f v) (source-opposite r py) ∙ coordinate-opposite (source r py) v)
coordinate-rotated r v nz =
    sym (ap (λ f. coordinate f v) (source-opposite r pz) ∙ coordinate-opposite (source r pz) v)

-- The rotation of a vector without the least `i32` does not panic. The result has in the direction of
-- each rotated face what the vector has in the direction of the face.
transform_vector-transform :
    (r : GridRotation) (v : GridVector)
    → IsBalanced v
    → (w : GridVector) × (transform_vector r v ≡ ret w)
      × ((f : Face6) → coordinate (transform r f) w ≡ coordinate f v)
transform_vector-transform r v h = (
  rotated r v,
  transform_vector-ret r v h,
  λ f. coordinate-rotated r v (transform r f) ∙ ap (λ g. coordinate g v) (source-transform r f),
)

source-composed :
    (a b c : GridRotation)
    → ((f : Face6) → transform c f ≡ transform a (transform b f))
    → (f : Face6) → source c f ≡ source b (source a f)
source-composed a b c h f =
    let g = source b (source a f) in
    let back : transform c g ≡ f =
      h g ∙ ap (transform a) (transform-source b (source a f)) ∙ transform-source a f in
    ap (source c) (sym back) ∙ source-transform c g

pub rotated-composed :
    (a b c : GridRotation) (v : GridVector)
    → ((f : Face6) → transform c f ≡ transform a (transform b f))
    → rotated c v ≡ rotated a (rotated b v)
rotated-composed a b c v h = vec_eq (at_face px) (at_face py) (at_face pz)
  where
    at_face : (f : Face6) → coordinate (source c f) v ≡ coordinate (source a f) (rotated b v)
    at_face f =
        ap (λ g. coordinate g v) (source-composed a b c h f)
        ∙ sym (coordinate-rotated b v (source a f))

pub coordinate-add :
    (f : Face6) (v w : GridVector) → coordinate f (add_vec v w) ≡ coordinate f v +ℤ coordinate f w
coordinate-add px v w = refl
coordinate-add py v w = refl
coordinate-add pz v w = refl
coordinate-add nx v w = eq_of_parts _ _ (omega int_cases)
coordinate-add ny v w = eq_of_parts _ _ (omega int_cases)
coordinate-add nz v w = eq_of_parts _ _ (omega int_cases)

pub add_assoc : (u v w : GridVector) → add_vec (add_vec u v) w ≡ add_vec u (add_vec v w)
add_assoc u v w = vec_eq (assoc _ _ _) (assoc _ _ _) (assoc _ _ _)
  where
    assoc : (x y z : ℤ) → (x +ℤ y) +ℤ z ≡ x +ℤ (y +ℤ z)
    assoc x y z = eq_of_parts _ _ (omega int_cases)

regroup :
    (r : GridRotation) (u v w : GridVector)
    → add_vec (rotated r u) (add_vec (rotated r v) w) ≡ add_vec (rotated r (add_vec u v)) w
regroup r u v w =
    sym (add_assoc (rotated r u) (rotated r v) w)
    ∙ ap (λ x. add_vec x w)
        (sym (
          vec_eq (coordinate-add (source r px) u v) (coordinate-add (source r py) u v)
            (coordinate-add (source r pz) u v)))

-- A transform that returned is exact.
pub transform_point-eq_ret :
    (g : Gridgid) (p : GridPoint) {q : GridPoint}
    → IsBalanced p
    → transform_point g p ≡ ret q
    → (q ≡ add_vec (rotated g.rotation p) g.translation)
      × InRange (add_vec (rotated g.rotation p) g.translation)
unfolding transform_point add
transform_point-eq_ret g p h run =
    let sum = rw (transform_vector-ret g.rotation p h) at run in
    run_vec-eq_ret (add_vec (rotated g.rotation p) g.translation) sum

pub transform_point-ret :
    (g : Gridgid) (p : GridPoint)
    → IsBalanced p
    → InRange (add_vec (rotated g.rotation p) g.translation)
    → transform_point g p ≡ ret (add_vec (rotated g.rotation p) g.translation)
unfolding transform_point
transform_point-ret g p h i = rw (transform_vector-ret g.rotation p h) (add-ret _ _ i)

-- The product of two transforms, where it does not overflow, takes a point where the left one takes
-- what the right one returns; neither point, and not the right translation, has the least `i32` as a
-- component.
pub mul-transform_point :
    (a b c : Gridgid) (p q s : GridPoint)
    → IsBalanced b.translation
    → IsBalanced p
    → IsBalanced q
    → mul a b ≡ ret c
    → transform_point b p ≡ ret q
    → transform_point a q ≡ ret s
    → transform_point c p ≡ ret s
unfolding mul
mul-transform_point a b c p q s t_ok p_ok q_ok product first second =
    let (r, turned, rest) = >>=-eq-ret (Operations.mul a.rotation b.rotation) _ product in
    let (t, shifted, made) = >>=-eq-ret (transform_point a b.translation) _ rest in
    let (r', turned', acts) = mul-transform a.rotation b.rotation in
    let same_rotation : c.rotation ≡ r' =
      sym (ap (λ (g : Gridgid). g.rotation) (ret-eq_ret made))
      ∙ ret-eq_ret (sym turned ∙ turned') in
    let (exact_t, t_in) = transform_point-eq_ret a b.translation t_ok shifted in
    let same_translation : c.translation
        ≡ add_vec (rotated a.rotation b.translation) a.translation =
      sym (ap (λ (g : Gridgid). g.translation) (ret-eq_ret made)) ∙ exact_t in
    let (exact_q, q_in) = transform_point-eq_ret b p p_ok first in
    let (exact_s, s_in) = transform_point-eq_ret a q q_ok second in
    let composed =
      rotated-composed a.rotation b.rotation c.rotation p
        (λ f. ap (λ g. transform g f) same_rotation ∙ acts f) in
    let total : add_vec (rotated c.rotation p) c.translation ≡ s =
      ap (λ u. add_vec u c.translation) composed
      ∙ ap (add_vec (rotated a.rotation (rotated b.rotation p))) same_translation
      ∙ regroup a.rotation (rotated b.rotation p) b.translation a.translation
      ∙ ap (λ u. add_vec (rotated a.rotation u) a.translation) (sym exact_q)
      ∙ sym exact_s in
    let in_range : InRange s = subst InRange (sym exact_s) s_in in
    transform_point-ret c p p_ok (subst InRange (sym total) in_range) ∙ ap ret total
