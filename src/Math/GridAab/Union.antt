-- ===== src/Math/GridAab/Union.antt =====
use all_is_cubes.Prelude.Run.{◌>>=◌, ret-eq_ret, >>=-eq-ret, ok, ret}
use all_is_cubes.Prelude.{refl, ◌≤◌, ap, ◌∙◌, arith, ◌≡◌}
use all_is_cubes.Math.GridAab.Index.{Between, Inside}
use all_is_cubes.Math.Vector.{
  run_vec-ret, run_vec-eq_ret, GridVector, sub_vec, sub, InRange, GridPoint, Cube,
}
use all_is_cubes.Math.GridAab.Volume.{IsAxis, checked_from_lower_size_iff, IsValid}
use all_is_cubes.Math.GridAab.Intersection.{
  mul_le, upper_bounds-ret, top, max_ℤ-IsMax, min_ℤ-IsMin, IsMax, IsMin,
}
use all_is_cubes.Prelude.Int.{
  pos_part, int_cases, pos, InI32, min_ℤ, max_ℤ, ◌-ℤ◌, ◌+ℤ◌, ◌≤ℤ◌, int_laws, ℤ,
}
use all_is_cubes.Math.GridAab.Operations.{zip_with, union}
use all_is_cubes.Math.GridAab.{checked_from_lower_size, GridAab}

-- `GridAab::union` (all-is-cubes/src/math/grid_aab.rs) against the bounds of the two boxes.

-- The extent of an axis lies in another one.
abbrev pub Spans : ℤ → ℤ → ℤ → ℤ → Type 0
Spans l s m t = (l ≤ℤ m) × (m +ℤ t ≤ℤ l +ℤ s)

-- The first box reaches as far as the second one on every side.
abbrev pub Encloses : GridAab → GridAab → Type 0
Encloses u b =
    Spans u.lower_bounds.x u.sizes.x b.lower_bounds.x b.sizes.x
    × Spans u.lower_bounds.y u.sizes.y b.lower_bounds.y b.sizes.y
    × Spans u.lower_bounds.z u.sizes.z b.lower_bounds.z b.sizes.z

pub Encloses-Inside : (u b : GridAab) (c : Cube) → Encloses u b → Inside b c → Inside u c
Encloses-Inside u b c h i =
    (between _ _ _ _ _ h.0 i.0, between _ _ _ _ _ h.1 i.1, between _ _ _ _ _ h.2 i.2)
  where
    between : (l s m t d : ℤ) → Spans l s m t → Between m t d → Between l s d
    between l s m t d h i = omega int_laws

pub Encloses_refl : (u : GridAab) → Encloses u u
Encloses_refl u = (omega arith, omega arith, omega arith)

pub Encloses-trans : (u v w : GridAab) → Encloses u v → Encloses v w → Encloses u w
Encloses-trans u v w h k =
    (spans _ _ _ _ _ _ h.0 k.0, spans _ _ _ _ _ _ h.1 k.1, spans _ _ _ _ _ _ h.2 k.2)
  where
    spans : (l s m t n r : ℤ) → Spans l s m t → Spans m t n r → Spans l s n r
    spans l s m t n r h k = omega int_laws

-- The least box that encloses both.
pub record IsHull (b o u : GridAab) : Type 0 where
  pub valid : IsValid u
  pub left : Encloses u b
  pub right : Encloses u o
  pub least : (w : GridAab) → Encloses w b → Encloses w o → Encloses w u

record AxisHull (l s m t lo size : ℤ) : Type 0 where
  on_left : Spans lo size l s
  on_right : Spans lo size m t
  at_least : (k r : ℤ) → Spans k r l s → Spans k r m t → Spans k r lo size

extremes-AxisHull :
    (l s m t lo hi : ℤ) → IsMin l m lo → IsMax (l +ℤ s) (m +ℤ t) hi → AxisHull l s m t lo (hi -ℤ lo)
extremes-AxisHull l s m t lo hi p q = record {
  on_left = omega (int_laws, p.left, q.left);
  on_right = omega (int_laws, p.right, q.right);
  at_least = λ k r h i. (omega (int_laws, p.one), omega (int_laws, q.one));
}

axis_hull : (l s m t : ℤ) → AxisHull l s m t (min_ℤ l m) (max_ℤ (l +ℤ s) (m +ℤ t) -ℤ min_ℤ l m)
axis_hull l s m t = extremes-AxisHull l s m t _ _ (min_ℤ-IsMin l m) (max_ℤ-IsMax (l +ℤ s) (m +ℤ t))

min_in : (l m : ℤ) → InI32 l → InI32 m → InI32 (min_ℤ l m)
min_in l m h k = ground arith

module _ (b o u : GridAab) (v : IsValid b) (w : IsValid o) where
  abbrev low : GridPoint
  low = zip_with min_ℤ b.lower_bounds o.lower_bounds

  abbrev high : GridPoint
  high = zip_with max_ℤ (top b) (top o)

  abbrev hull : GridAab
  hull = record { lower_bounds = low; sizes = sub_vec high low }

  low_in : InRange low
  low_in = (
    min_in _ _ v.lower_in.0 w.lower_in.0,
    min_in _ _ v.lower_in.1 w.lower_in.1,
    min_in _ _ v.lower_in.2 w.lower_in.2,
  )

  hull-IsHull : IsValid hull → IsHull b o hull
  hull-IsHull valid =
      let x = axis_hull b.lower_bounds.x b.sizes.x o.lower_bounds.x o.sizes.x in
      let y = axis_hull b.lower_bounds.y b.sizes.y o.lower_bounds.y o.sizes.y in
      let z = axis_hull b.lower_bounds.z b.sizes.z o.lower_bounds.z o.sizes.z in
      record {
        valid = valid;
        left = (x.on_left, y.on_left, z.on_left);
        right = (x.on_right, y.on_right, z.on_right);
        least = λ k h i. (x.at_least _ _ h.0 i.0, y.at_least _ _ h.1 i.1, z.at_least _ _ h.2 i.2);
      }

  from_sizes :
      (sizes : GridVector)
      → sub high low ≡ ret sizes
      → checked_from_lower_size low sizes ≡ ok u
      → IsHull b o u
  unfolding sub
  from_sizes sizes run made =
      let (same, range) = run_vec-eq_ret (sub_vec high low) run in
      let (is, valid) = (checked_from_lower_size_iff low sizes u low_in (rw same range)).0 made in
      let whole : u ≡ hull = is ∙ ap (λ d. record { lower_bounds = low; sizes = d }) same in
      rw whole (hull-IsHull (rw whole at valid))

-- Where `union` returns a box, it is the least one that encloses both.
pub union-IsHull : (b o u : GridAab) → IsValid b → IsValid o → union b o ≡ ret (ok u) → IsHull b o u
unfolding union
union-IsHull b o u v w run =
    let made = rw (upper_bounds-ret b v, upper_bounds-ret o w) at run in
    let (sizes, subtracted, checked) = >>=-eq-ret (sub (high b o u v w) (low b o u v w)) _ made in
    from_sizes b o u v w sizes subtracted (ret-eq_ret checked)

-- One axis of a hull inside a valid box.
record Bounded (lo size r : ℤ) : Type 0 where
  size_in : InI32 size
  axis : IsAxis lo size
  less : pos_part size ≤ pos_part r

axis-Bounded :
    (l s lo size k r : ℤ)
    → pos 0 ≤ℤ s
    → Spans lo size l s
    → Spans k r lo size
    → InI32 k
    → InI32 r
    → IsAxis k r
    → Bounded lo size r
axis-Bounded l s lo size k r z h i a c d = record {
  size_in = omega int_cases;
  axis = (omega int_laws, omega int_laws);
  less = omega int_cases;
}

-- The union of valid boxes that a valid box encloses is the least box that encloses both.
pub union-ok :
    (b o w : GridAab)
    → IsValid b
    → IsValid o
    → IsValid w
    → Encloses w b
    → Encloses w o
    → (u : GridAab) × (union b o ≡ ret (ok u)) × IsHull b o u
unfolding union sub
union-ok b o w v x y h k =
    let low_ok = low_in b o b v x in
    let ax = axis_hull b.lower_bounds.x b.sizes.x o.lower_bounds.x o.sizes.x in
    let ay = axis_hull b.lower_bounds.y b.sizes.y o.lower_bounds.y o.sizes.y in
    let az = axis_hull b.lower_bounds.z b.sizes.z o.lower_bounds.z o.sizes.z in
    let bx =
      axis-Bounded _ _ _ _ w.lower_bounds.x w.sizes.x v.x_axis.0 ax.on_left
        (ax.at_least _ _ h.0 k.0) y.lower_in.0 y.sizes_in.0 y.x_axis in
    let by =
      axis-Bounded _ _ _ _ w.lower_bounds.y w.sizes.y v.y_axis.0 ay.on_left
        (ay.at_least _ _ h.1 k.1) y.lower_in.1 y.sizes_in.1 y.y_axis in
    let bz =
      axis-Bounded _ _ _ _ w.lower_bounds.z w.sizes.z v.z_axis.0 az.on_left
        (az.at_least _ _ h.2 k.2) y.lower_in.2 y.sizes_in.2 y.z_axis in
    let valid : IsValid (hull b o b v x) = record {
      lower_in = low_ok;
      sizes_in = (bx.size_in, by.size_in, bz.size_in);
      x_axis = bx.axis;
      y_axis = by.axis;
      z_axis = bz.axis;
      volume_lt =
          omega (arith, y.volume_lt, mul_le _ _ _ _ (mul_le _ _ _ _ bx.less by.less) bz.less);
    } in
    let made =
      (checked_from_lower_size_iff (low b o b v x) (sub_vec (high b o b v x) (low b o b v x))
          (hull b o b v x) low_ok valid.sizes_in).1
        (refl, valid) in
    (
      hull b o b v x,
      rw (upper_bounds-ret b v, upper_bounds-ret o x)
          (ap (λ m. m >>= λ sizes. ret (checked_from_lower_size (low b o b v x) sizes))
              (run_vec-ret (sub_vec (high b o b v x) (low b o b v x)) valid.sizes_in)
            ∙ ap ret made),
      hull-IsHull b o b v x valid,
    )
