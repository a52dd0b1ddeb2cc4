-- ===== src/Layout/Insetting.antt =====
-- The margin of a layout tree (all-is-cubes-ui/src/vui/layout.rs): `GridAab::expand`
-- (all-is-cubes/src/math/grid_aab.rs) by negative amounts.
use all_is_cubes.Prelude.{◌≡◌, refl, arith}
use all_is_cubes.Prelude.Run.{ret, i32-ret}
use all_is_cubes.Prelude.Int.{ℤ, pos, ◌+ℤ◌, ◌-ℤ◌, ◌≤ℤ◌, InI32, int_cases, eq_of_parts}
use all_is_cubes.Math.Vector.{GridVector, vec, add_vec, sub, run_vec-ret}
use all_is_cubes.Math.Face.Map.{FaceMap, negatives, positives}
use all_is_cubes.Math.GridAab.{GridAab, from_lower_upper}
use all_is_cubes.Math.GridAab.Operations.{expand}
use all_is_cubes.Math.GridAab.Volume.{IsValid, IsAxis}
use all_is_cubes.Math.GridAab.Intersection.{upper_bounds-ret}
use all_is_cubes.Math.GridAab.Union.{Encloses, Spans}
use all_is_cubes.Layout.Tree.{shrunk_margin}
use all_is_cubes.Layout.Sizing.{Fits, IsNonneg}
use all_is_cubes.Layout.Shrinking.{cubes-le, from_lower_size-ret}

-- No side of the margin is negative.
abbrev pub IsMargin : FaceMap ℤ → Type 0
IsMargin m = IsNonneg (negatives m) × IsNonneg (positives m)

-- The box inside a margin.
abbrev pub inset : GridAab → FaceMap ℤ → GridAab
inset b m = record {
  lower_bounds =
      vec (b.lower_bounds.x +ℤ m.nx) (b.lower_bounds.y +ℤ m.ny) (b.lower_bounds.z +ℤ m.nz);
  sizes = vec (b.sizes.x -ℤ m.nx -ℤ m.px) (b.sizes.y -ℤ m.ny -ℤ m.py) (b.sizes.z -ℤ m.nz -ℤ m.pz);
}

-- An axis with the sides `n` and `p` of the margin, where the size `r` is left.
module _ (l s n p r : ℤ) (lo : InI32 l) (si : InI32 s) (ax : IsAxis l s) (nn : pos 0 ≤ℤ n)
    (pn : pos 0 ≤ℤ p) (rn : pos 0 ≤ℤ r) (fits : (r +ℤ n +ℤ p) ≤ℤ s) where
  sides_in : InI32 (pos 0 -ℤ n) × InI32 (pos 0 -ℤ p)
  sides_in = ((omega int_cases, omega int_cases), (omega int_cases, omega int_cases))

  lower_in : InI32 (l +ℤ n)
  lower_in = (omega int_cases, omega int_cases)

  upper_in : InI32 ((l +ℤ s) -ℤ p)
  upper_in = (omega int_cases, omega int_cases)

  rest_in : InI32 (s -ℤ n -ℤ p)
  rest_in = (omega int_cases, omega int_cases)

  rest_le : (r ≤ℤ (s -ℤ n -ℤ p)) × ((s -ℤ n -ℤ p) ≤ℤ s)
  rest_le = (omega int_cases, omega int_cases)

  rest-IsAxis : IsAxis (l +ℤ n) (s -ℤ n -ℤ p)
  rest-IsAxis = (omega int_cases, (omega int_cases, omega int_cases))

  rest-Spans : Spans l s (l +ℤ n) (s -ℤ n -ℤ p)
  rest-Spans = (omega int_cases, omega int_cases)

lower_eq : (l n : ℤ) → l -ℤ (pos 0 -ℤ n) ≡ l +ℤ n
lower_eq l n = eq_of_parts (l -ℤ (pos 0 -ℤ n)) (l +ℤ n) (omega int_cases)

upper_eq : (u p : ℤ) → u +ℤ (pos 0 -ℤ p) ≡ u -ℤ p
upper_eq u p = eq_of_parts (u +ℤ (pos 0 -ℤ p)) (u -ℤ p) (omega int_cases)

size_eq : (l s n p : ℤ) → ((l +ℤ s) -ℤ p) -ℤ (l +ℤ n) ≡ s -ℤ n -ℤ p
size_eq l s n p = eq_of_parts (((l +ℤ s) -ℤ p) -ℤ (l +ℤ n)) (s -ℤ n -ℤ p) (omega int_cases)

module _ (b : GridAab) (m : FaceMap ℤ) (r : GridVector) (v : IsValid b) (n : IsNonneg r)
    (p : IsMargin m) (fits : Fits (add_vec (add_vec r (negatives m)) (positives m)) b.sizes) where
  pub inset-Fits : Fits r (inset b m).sizes
  unfolding negatives positives
  inset-Fits = (
    (rest_le b.lower_bounds.x b.sizes.x m.nx m.px r.x v.lower_in.0 v.sizes_in.0 v.x_axis p.0.0 p.1.0
        n.0 fits.0).0,
    (rest_le b.lower_bounds.y b.sizes.y m.ny m.py r.y v.lower_in.1 v.sizes_in.1 v.y_axis p.0.1 p.1.1
        n.1 fits.1).0,
    (rest_le b.lower_bounds.z b.sizes.z m.nz m.pz r.z v.lower_in.2 v.sizes_in.2 v.z_axis p.0.2 p.1.2
        n.2 fits.2).0,
  )

  pub inset-Encloses : Encloses b (inset b m)
  unfolding negatives positives
  inset-Encloses = (
    rest-Spans b.lower_bounds.x b.sizes.x m.nx m.px r.x v.lower_in.0 v.sizes_in.0 v.x_axis p.0.0
        p.1.0 n.0 fits.0,
    rest-Spans b.lower_bounds.y b.sizes.y m.ny m.py r.y v.lower_in.1 v.sizes_in.1 v.y_axis p.0.1
        p.1.1 n.1 fits.1,
    rest-Spans b.lower_bounds.z b.sizes.z m.nz m.pz r.z v.lower_in.2 v.sizes_in.2 v.z_axis p.0.2
        p.1.2 n.2 fits.2,
  )

  pub inset-IsValid : IsValid (inset b m)
  unfolding negatives positives
  inset-IsValid =
      let x =
        rest-IsAxis b.lower_bounds.x b.sizes.x m.nx m.px r.x v.lower_in.0 v.sizes_in.0 v.x_axis
          p.0.0 p.1.0 n.0 fits.0 in
      let y =
        rest-IsAxis b.lower_bounds.y b.sizes.y m.ny m.py r.y v.lower_in.1 v.sizes_in.1 v.y_axis
          p.0.1 p.1.1 n.1 fits.1 in
      let z =
        rest-IsAxis b.lower_bounds.z b.sizes.z m.nz m.pz r.z v.lower_in.2 v.sizes_in.2 v.z_axis
          p.0.2 p.1.2 n.2 fits.2 in
      record {
        lower_in = (
          lower_in b.lower_bounds.x b.sizes.x m.nx m.px r.x v.lower_in.0 v.sizes_in.0 v.x_axis p.0.0
              p.1.0 n.0 fits.0,
          lower_in b.lower_bounds.y b.sizes.y m.ny m.py r.y v.lower_in.1 v.sizes_in.1 v.y_axis p.0.1
              p.1.1 n.1 fits.1,
          lower_in b.lower_bounds.z b.sizes.z m.nz m.pz r.z v.lower_in.2 v.sizes_in.2 v.z_axis p.0.2
              p.1.2 n.2 fits.2,
        );
        sizes_in = (
          rest_in b.lower_bounds.x b.sizes.x m.nx m.px r.x v.lower_in.0 v.sizes_in.0 v.x_axis p.0.0
              p.1.0 n.0 fits.0,
          rest_in b.lower_bounds.y b.sizes.y m.ny m.py r.y v.lower_in.1 v.sizes_in.1 v.y_axis p.0.1
              p.1.1 n.1 fits.1,
          rest_in b.lower_bounds.z b.sizes.z m.nz m.pz r.z v.lower_in.2 v.sizes_in.2 v.z_axis p.0.2
              p.1.2 n.2 fits.2,
        );
        x_axis = x;
        y_axis = y;
        z_axis = z;
        volume_lt = omega (
          arith,
          cubes-le b.sizes (inset b m).sizes (x.0, y.0, z.0)
              (
                (rest_le b.lower_bounds.x b.sizes.x m.nx m.px r.x v.lower_in.0 v.sizes_in.0 v.x_axis
                    p.0.0 p.1.0 n.0 fits.0).1,
                (rest_le b.lower_bounds.y b.sizes.y m.ny m.py r.y v.lower_in.1 v.sizes_in.1 v.y_axis
                    p.0.1 p.1.1 n.1 fits.1).1,
                (rest_le b.lower_bounds.z b.sizes.z m.nz m.pz r.z v.lower_in.2 v.sizes_in.2 v.z_axis
                    p.0.2 p.1.2 n.2 fits.2).1,
              ),
          v.volume_lt,
        );
      }

  abbrev pub negated : FaceMap ℤ
  negated = record {
    nx = pos 0 -ℤ m.nx;
    ny = pos 0 -ℤ m.ny;
    nz = pos 0 -ℤ m.nz;
    px = pos 0 -ℤ m.px;
    py = pos 0 -ℤ m.py;
    pz = pos 0 -ℤ m.pz;
  }

  pub shrunk_margin-ret : shrunk_margin m ≡ ret negated
  unfolding shrunk_margin negatives positives
  shrunk_margin-ret =
      let x =
        sides_in b.lower_bounds.x b.sizes.x m.nx m.px r.x v.lower_in.0 v.sizes_in.0 v.x_axis p.0.0
          p.1.0 n.0 fits.0 in
      let y =
        sides_in b.lower_bounds.y b.sizes.y m.ny m.py r.y v.lower_in.1 v.sizes_in.1 v.y_axis p.0.1
          p.1.1 n.1 fits.1 in
      let z =
        sides_in b.lower_bounds.z b.sizes.z m.nz m.pz r.z v.lower_in.2 v.sizes_in.2 v.z_axis p.0.2
          p.1.2 n.2 fits.2 in
      rw
        (
          i32-ret (pos 0 -ℤ m.nx) x.0,
          i32-ret (pos 0 -ℤ m.ny) y.0,
          i32-ret (pos 0 -ℤ m.nz) z.0,
          i32-ret (pos 0 -ℤ m.px) x.1,
          i32-ret (pos 0 -ℤ m.py) y.1,
          i32-ret (pos 0 -ℤ m.pz) z.1,
        )
        refl

  pub expand-ret : expand b negated ≡ ret (inset b m)
  unfolding expand from_lower_upper sub negatives positives
  expand-ret =
      let l = b.lower_bounds in
      let s = b.sizes in
      rw
        (
          upper_bounds-ret b v,
          lower_eq l.x m.nx,
          lower_eq l.y m.ny,
          lower_eq l.z m.nz,
          run_vec-ret (inset b m).lower_bounds (
            lower_in b.lower_bounds.x b.sizes.x m.nx m.px r.x v.lower_in.0 v.sizes_in.0 v.x_axis
                p.0.0 p.1.0 n.0 fits.0,
            lower_in b.lower_bounds.y b.sizes.y m.ny m.py r.y v.lower_in.1 v.sizes_in.1 v.y_axis
                p.0.1 p.1.1 n.1 fits.1,
            lower_in b.lower_bounds.z b.sizes.z m.nz m.pz r.z v.lower_in.2 v.sizes_in.2 v.z_axis
                p.0.2 p.1.2 n.2 fits.2,
          ),
          upper_eq (l.x +ℤ s.x) m.px,
          upper_eq (l.y +ℤ s.y) m.py,
          upper_eq (l.z +ℤ s.z) m.pz,
          run_vec-ret (vec ((l.x +ℤ s.x) -ℤ m.px) ((l.y +ℤ s.y) -ℤ m.py) ((l.z +ℤ s.z) -ℤ m.pz)) (
            upper_in b.lower_bounds.x b.sizes.x m.nx m.px r.x v.lower_in.0 v.sizes_in.0 v.x_axis
                p.0.0 p.1.0 n.0 fits.0,
            upper_in b.lower_bounds.y b.sizes.y m.ny m.py r.y v.lower_in.1 v.sizes_in.1 v.y_axis
                p.0.1 p.1.1 n.1 fits.1,
            upper_in b.lower_bounds.z b.sizes.z m.nz m.pz r.z v.lower_in.2 v.sizes_in.2 v.z_axis
                p.0.2 p.1.2 n.2 fits.2,
          ),
          size_eq l.x s.x m.nx m.px,
          size_eq l.y s.y m.ny m.py,
          size_eq l.z s.z m.nz m.pz,
          run_vec-ret (inset b m).sizes (
            rest_in b.lower_bounds.x b.sizes.x m.nx m.px r.x v.lower_in.0 v.sizes_in.0 v.x_axis
                p.0.0 p.1.0 n.0 fits.0,
            rest_in b.lower_bounds.y b.sizes.y m.ny m.py r.y v.lower_in.1 v.sizes_in.1 v.y_axis
                p.0.1 p.1.1 n.1 fits.1,
            rest_in b.lower_bounds.z b.sizes.z m.nz m.pz r.z v.lower_in.2 v.sizes_in.2 v.z_axis
                p.0.2 p.1.2 n.2 fits.2,
          ),
          from_lower_size-ret (inset b m) inset-IsValid,
        )
        refl
