-- ===== src/Math/Gridgid/Inverting.antt =====
-- The inverse of a `Gridgid` (all-is-cubes/src/math/rigid.rs).
use all_is_cubes.Math.Rotation.Operations
use all_is_cubes.Math.Gridgid.{inverse}
use all_is_cubes.Math.Gridgid.Acting.{transform_vector-ret}
use all_is_cubes.Math.Rotation.Group.{mul-transform, inverse_lem}
use all_is_cubes.Math.Gridgid.{transform_point, Gridgid}
use all_is_cubes.Math.Gridgid.Composing.{
  rotated-composed, transform_point-ret, transform_point-eq_ret, coordinate-add,
}
use all_is_cubes.Prelude.Int.{eq_of_parts, ◌+ℤ◌, int_cases, ℤ, int_laws}
use all_is_cubes.Prelude.Run.{ret-eq_ret, ret}
use all_is_cubes.Prelude.{subst, refl, ◌∙◌, sym, ap, ◌≡◌}
use all_is_cubes.Math.Gridgid.Rows.{
  source-transform, source, negate, coordinate, rotated, IsBalanced,
}
use all_is_cubes.Math.Vector.{
  InRange, GridPoint, vec_eq, run_vec-ret, vec, add_vec, neg, GridVector,
}
use all_is_cubes.Math.Rotation.{identity, GridRotation}
use all_is_cubes.Math.Rotation.Operations.{transform}
use all_is_cubes.Math.Face.{nx, px, py, pz, Face6}

neg-ret : (v : GridVector) → IsBalanced v → neg v ≡ ret (vec (negate v.x) (negate v.y) (negate v.z))
unfolding neg
neg-ret v h = run_vec-ret _ (omega int_laws, omega int_laws, omega int_laws)

negated-IsBalanced :
    (v : GridVector) → IsBalanced v → IsBalanced (vec (negate v.x) (negate v.y) (negate v.z))
negated-IsBalanced v h = (
  (omega int_laws, omega int_laws, omega int_laws),
  omega int_cases,
  omega int_cases,
  omega int_cases,
)

undone : (u v : GridVector) → add_vec (add_vec u v) (vec (negate v.x) (negate v.y) (negate v.z)) ≡ u
undone u v = vec_eq (cancel _ _) (cancel _ _) (cancel _ _)
  where
    cancel : (x y : ℤ) → x +ℤ y +ℤ negate y ≡ x
    cancel x y = eq_of_parts _ _ (omega int_cases)

-- A rotation that fixes the faces fixes the vectors.
rotated-fixed :
    (r : GridRotation) (v : GridVector) → ((f : Face6) → transform r f ≡ f) → rotated r v ≡ v
rotated-fixed r v h = vec_eq (at_face px) (at_face py) (at_face pz)
  where
    at_face : (f : Face6) → coordinate (source r f) v ≡ coordinate f v
    at_face f = ap (λ g. coordinate g v) (sym (ap (source r) (h f)) ∙ source-transform r f)

identity_fixes : (f : Face6) → transform identity f ≡ f
unfolding transform
identity_fixes nx = refl
identity_fixes _ = refl

rotated-add :
    (r : GridRotation) (v w : GridVector)
    → add_vec (rotated r v) (rotated r w) ≡ rotated r (add_vec v w)
rotated-add r v w = sym (
    vec_eq (coordinate-add (source r px) v w) (coordinate-add (source r py) v w)
      (coordinate-add (source r pz) v w))

-- A rotation and its inverse cancel.
rotated-inverse :
    (r s : GridRotation) (v : GridVector)
    → Operations.mul s r ≡ ret identity
    → rotated s (rotated r v) ≡ v
rotated-inverse r s v product =
    let (i, found, acts) = mul-transform s r in
    let is_identity : i ≡ identity = ret-eq_ret (sym found ∙ product) in
    sym (rotated-composed s r i v acts)
    ∙ rotated-fixed i v (λ f. ap (λ x. transform x f) is_identity ∙ identity_fixes f)

-- The inverse of a transform whose translation has no component of the least `i32` does not panic. It
-- takes the transformed point, where the transform does not overflow, back to the point, if neither of
-- them has such a component.
pub inverse-transform_point :
    (g : Gridgid) (p q : GridPoint)
    → IsBalanced g.translation
    → IsBalanced p
    → IsBalanced q
    → transform_point g p ≡ ret q
    → (h : Gridgid) × (inverse g ≡ ret h) × (transform_point h q ≡ ret p)
unfolding inverse
inverse-transform_point g p q t_ok p_ok q_ok run =
    let (s, found, right, left) = inverse_lem g.rotation in
    let back = vec (negate g.translation.x) (negate g.translation.y) (negate g.translation.z) in
    let h : Gridgid = record { rotation = s; translation = rotated s back } in
    let (exact, in_range) = transform_point-eq_ret g p p_ok run in
    let total : add_vec (rotated s q) (rotated s back) ≡ p =
      rotated-add s q back
      ∙ ap (λ u. rotated s (add_vec u back)) exact
      ∙ ap (rotated s) (undone (rotated g.rotation p) g.translation)
      ∙ rotated-inverse g.rotation s p left in
    (
      h,
      rw
          (
            found,
            neg-ret g.translation t_ok,
            transform_vector-ret s back (negated-IsBalanced g.translation t_ok),
          )
          refl,
      transform_point-ret h q q_ok (subst InRange (sym total) p_ok.0) ∙ ap ret total,
    )
