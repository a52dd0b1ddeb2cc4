-- ===== src/Math/Gridgid/Acting.antt =====
-- `GridRotation::transform_vector` (all-is-cubes/src/math/rotation.rs) against the rotation of faces.
use all_is_cubes.Math.Gridgid.Rows.{
  source, rows, columns_table, rotated, coordinate, columns_agree, column, IsRow, IsBalanced,
}
use all_is_cubes.Prelude.Run.{◌>>=◌, Run, ret}
use all_is_cubes.Math.Gridgid.{transform_vector}
use all_is_cubes.Prelude.Int.{◌*ℤ◌, ℤ}
use all_is_cubes.Prelude.{◌∙◌, ap, ◌≡◌}
use all_is_cubes.Math.Vector.{
  vec_eq, run_vec-ret, add_vec, add, scale, eqb_vec_iff, vec, InRange, GridVector,
}
use all_is_cubes.Math.Rotation.Checks.{every_rotation, &&-true}
use all_is_cubes.Math.Rotation.Basis.{to_basis}
use all_is_cubes.Math.Rotation.{GridRotation}
use all_is_cubes.Math.Face.Seven.{face6_normal_vector}
use all_is_cubes.Math.Face.{Face6, px, py, pz}

columns :
    (r : GridRotation)
    → (face6_normal_vector (to_basis r).x ≡ column r (λ v. v.x))
      × (face6_normal_vector (to_basis r).y ≡ column r (λ v. v.y))
      × (face6_normal_vector (to_basis r).z ≡ column r (λ v. v.z))
columns r =
    let (x, yz) = &&-true _ _ (every_rotation columns_agree columns_table r) in
    let (y, z) = &&-true _ _ yz in
    ((eqb_vec_iff _ _).0 x, (eqb_vec_iff _ _).0 y, (eqb_vec_iff _ _).0 z)

scale-ret :
    (w : GridVector) (k : ℤ)
    → InRange (vec (w.x *ℤ k) (w.y *ℤ k) (w.z *ℤ k))
    → scale w k ≡ ret (vec (w.x *ℤ k) (w.y *ℤ k) (w.z *ℤ k))
unfolding scale
scale-ret w k h = run_vec-ret _ h

pub add-ret : (v w : GridVector) → InRange (add_vec v w) → add v w ≡ ret (add_vec v w)
unfolding add
add-ret v w h = run_vec-ret _ h

-- The sum that `transform_vector` computes.
abbrev combine : GridVector → GridVector → GridVector → GridVector → Run GridVector
combine a b c v =
    scale a v.x >>= λ p. scale b v.y >>= λ q. add p q >>= λ pq. scale c v.z >>= λ s. add pq s

module _ (f g h : Face6) (v : GridVector) (x : IsRow f v) (y : IsRow g v) (z : IsRow h v) where
  abbrev part : (GridVector → ℤ) → GridVector
  part c = vec (c (face6_normal_vector f)) (c (face6_normal_vector g)) (c (face6_normal_vector h))

  abbrev scaled : (GridVector → ℤ) → GridVector
  scaled c = vec ((part c).x *ℤ c v) ((part c).y *ℤ c v) ((part c).z *ℤ c v)

  combine-ret :
      combine (part (λ w. w.x)) (part (λ w. w.y)) (part (λ w. w.z)) v
      ≡ ret (vec (coordinate f v) (coordinate g v) (coordinate h v))
  combine-ret =
      let total : add_vec (add_vec (scaled (λ w. w.x)) (scaled (λ w. w.y))) (scaled (λ w. w.z))
          ≡ vec (coordinate f v) (coordinate g v) (coordinate h v) =
        vec_eq x.total y.total z.total in
      rw
        (
          scale-ret (part (λ w. w.x)) v.x (x.first, y.first, z.first),
          scale-ret (part (λ w. w.y)) v.y (x.second, y.second, z.second),
          add-ret (scaled (λ w. w.x)) (scaled (λ w. w.y)) (x.sum, y.sum, z.sum),
          scale-ret (part (λ w. w.z)) v.z (x.third, y.third, z.third),
        )
        (add-ret _ _ (rw x.total x.result_in, rw y.total y.result_in, rw z.total z.result_in)
          ∙ ap ret total)

-- The rotation of a vector without the least `i32` does not panic.
pub transform_vector-ret :
    (r : GridRotation) (v : GridVector) → IsBalanced v → transform_vector r v ≡ ret (rotated r v)
unfolding transform_vector
transform_vector-ret r v h =
    let (cx, cy, cz) = columns r in
    let x = rows (source r px) v h in
    let y = rows (source r py) v h in
    let z = rows (source r pz) v h in
    ap (λ a. combine a (face6_normal_vector (to_basis r).y) (face6_normal_vector (to_basis r).z) v)
      cx
    ∙ ap (λ b. combine (column r (λ w. w.x)) b (face6_normal_vector (to_basis r).z) v) cy
    ∙ ap (λ c. combine (column r (λ w. w.x)) (column r (λ w. w.y)) c v) cz
    ∙ combine-ret (source r px) (source r py) (source r pz) v x y z
