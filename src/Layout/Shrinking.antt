-- ===== src/Layout/Shrinking.antt =====
-- `LayoutGrant::shrink_to` (all-is-cubes-ui/src/vui/layout.rs): where the shrunk box lies.
use all_is_cubes.Math.GridAab.Intersection.{mul_le, upper_bounds-ret}
use all_is_cubes.Math.GridAab.{from_lower_size, GridAab}
use all_is_cubes.Math.GridAab.Union.{Encloses}
use all_is_cubes.Math.Vector.{vec, add_vec, InRange, GridVector}
use all_is_cubes.Prelude.{◌*◌, ◌≤◌, true, ◌≡◌, refl, Bool, ◌&&◌, arith}
use all_is_cubes.Prelude.Run.{ret}
use all_is_cubes.Prelude.Int.{pos_part, leb_ℤ, min_ℤ, ℤ, pos, ◌+ℤ◌, ◌≤ℤ◌, InI32, int_cases}
use all_is_cubes.Math.GridAab.Volume.{checked_from_lower_size_iff, cubes, IsValid, IsAxis}
use all_is_cubes.Layout.{Gravity, shrink_to, LayoutGrant, Align, place}
use all_is_cubes.Layout.Sizing.{
  IsNonneg, Fits, wanted, enlarge-ret, wanted_in, wanted_le, final_size, final_size_lem,
}
use all_is_cubes.Layout.Aligning.{Aligned, Shrinks, place-Shrinks}

-- Each axis of the shrunk box.
pub record IsShrunk (f : Bool) (grant : LayoutGrant) (sizes : GridVector) (out : LayoutGrant)
    : Type 0 where
  pub valid : IsValid out.bounds
  pub encloses : Encloses grant.bounds out.bounds
  pub size_x : out.bounds.sizes.x ≡ final_size f grant.gravity.x grant.bounds.sizes.x sizes.x
  pub size_y : out.bounds.sizes.y ≡ final_size f grant.gravity.y grant.bounds.sizes.y sizes.y
  pub size_z : out.bounds.sizes.z ≡ final_size f grant.gravity.z grant.bounds.sizes.z sizes.z
  pub aligned_x :
      Aligned grant.gravity.x grant.bounds.lower_bounds.x grant.bounds.sizes.x
        out.bounds.lower_bounds.x out.bounds.sizes.x
  pub aligned_y :
      Aligned grant.gravity.y grant.bounds.lower_bounds.y grant.bounds.sizes.y
        out.bounds.lower_bounds.y out.bounds.sizes.y
  pub aligned_z :
      Aligned grant.gravity.z grant.bounds.lower_bounds.z grant.bounds.sizes.z
        out.bounds.lower_bounds.z out.bounds.sizes.z
  pub gravity : out.gravity ≡ grant.gravity

pub from_lower_size-ret : (b : GridAab) → IsValid b → from_lower_size b.lower_bounds b.sizes ≡ ret b
unfolding from_lower_size
from_lower_size-ret b v =
    rw ((checked_from_lower_size_iff b.lower_bounds b.sizes b v.lower_in v.sizes_in).1 (refl, v))
      refl

-- The checks on the sizes, which are made in one assertion.
sizes-asserted :
    (s : GridVector)
    → (pos 0 ≤ℤ s.x) × (pos 0 ≤ℤ s.y) × (pos 0 ≤ℤ s.z)
    → (leb_ℤ (pos 0) s.x && leb_ℤ (pos 0) s.y && leb_ℤ (pos 0) s.z) ≡ true
sizes-asserted s (hx, hy, hz) = ground arith

-- A smaller size is in range.
pub size_in : (s s' : ℤ) → InI32 s → pos 0 ≤ℤ s' → s' ≤ℤ s → InI32 s'
size_in s s' h k l = (omega int_cases, omega int_cases)

pub cubes-le : (s s' : GridVector) → IsNonneg s' → Fits s' s → cubes s' ≤ cubes s
cubes-le s s' (nx, ny, nz) (lx, ly, lz) =
    mul_le (pos_part s'.x * pos_part s'.y) (pos_part s.x * pos_part s.y) (pos_part s'.z)
      (pos_part s.z)
      (mul_le (pos_part s'.x) (pos_part s.x) (pos_part s'.y) (pos_part s.y) (part_le s.x s'.x nx lx)
        (part_le s.y s'.y ny ly))
      (part_le s.z s'.z nz lz)
  where
    part_le : (a a' : ℤ) → pos 0 ≤ℤ a' → a' ≤ℤ a → pos_part a' ≤ pos_part a
    part_le a a' k l = omega int_cases

-- A box whose axes are each shrunk is valid.
pub Shrinks-IsValid :
    (b o : GridAab) (g : Gravity)
    → IsValid b
    → (o.sizes.x ≤ℤ b.sizes.x) × (o.sizes.y ≤ℤ b.sizes.y) × (o.sizes.z ≤ℤ b.sizes.z)
    → Shrinks g.x b.lower_bounds.x b.sizes.x o.lower_bounds.x o.sizes.x
    → Shrinks g.y b.lower_bounds.y b.sizes.y o.lower_bounds.y o.sizes.y
    → Shrinks g.z b.lower_bounds.z b.sizes.z o.lower_bounds.z o.sizes.z
    → IsValid o
Shrinks-IsValid b o g v (lx, ly, lz) sx sy sz = record {
  lower_in = (sx.lower_in, sy.lower_in, sz.lower_in);
  sizes_in = (
    size_in b.sizes.x o.sizes.x v.sizes_in.0 sx.axis.0 lx,
    size_in b.sizes.y o.sizes.y v.sizes_in.1 sy.axis.0 ly,
    size_in b.sizes.z o.sizes.z v.sizes_in.2 sz.axis.0 lz,
  );
  x_axis = sx.axis;
  y_axis = sy.axis;
  z_axis = sz.axis;
  volume_lt =
      omega (
        arith,
        cubes-le b.sizes o.sizes (sx.axis.0, sy.axis.0, sz.axis.0) (lx, ly, lz),
        v.volume_lt,
      );
}

abbrev all_wanted : Bool → LayoutGrant → GridVector → GridVector
all_wanted f grant sizes =
    vec (wanted f grant.gravity.x grant.bounds.sizes.x sizes.x)
      (wanted f grant.gravity.y grant.bounds.sizes.y sizes.y)
      (wanted f grant.gravity.z grant.bounds.sizes.z sizes.z)

returns :
    (grant : LayoutGrant) (sizes : GridVector) (f : Bool)
    → IsValid grant.bounds
    → IsNonneg sizes
    → InRange (all_wanted f grant sizes)
    → (out : LayoutGrant) × (shrink_to grant sizes f ≡ ret out) × IsShrunk f grant sizes out
unfolding shrink_to
returns grant sizes f v (nx, ny, nz) (rx, ry, rz) =
    let b = grant.bounds in
    let g = grant.gravity in
    let fx = final_size_lem f g.x b.sizes.x sizes.x v.x_axis.0 nx in
    let fy = final_size_lem f g.y b.sizes.y sizes.y v.y_axis.0 ny in
    let fz = final_size_lem f g.z b.sizes.z sizes.z v.z_axis.0 nz in
    let px =
      placed f g.x b.lower_bounds.x b.sizes.x sizes.x v.lower_in.0 v.sizes_in.0 v.x_axis fx in
    let py =
      placed f g.y b.lower_bounds.y b.sizes.y sizes.y v.lower_in.1 v.sizes_in.1 v.y_axis fy in
    let pz =
      placed f g.z b.lower_bounds.z b.sizes.z sizes.z v.lower_in.2 v.sizes_in.2 v.z_axis fz in
    let box : GridAab = record {
      lower_bounds = vec px.0 py.0 pz.0;
      sizes =
          vec (final_size f g.x b.sizes.x sizes.x) (final_size f g.y b.sizes.y sizes.y)
            (final_size f g.z b.sizes.z sizes.z);
    } in
    let valid = Shrinks-IsValid b box g v (fx.1, fy.1, fz.1) px.2 py.2 pz.2 in
    (
      record { bounds = box; gravity = g },
      rw
          (
            sizes-asserted sizes (nx, ny, nz),
            enlarge-ret f g.x b.sizes.x sizes.x rx,
            enlarge-ret f g.y b.sizes.y sizes.y ry,
            enlarge-ret f g.z b.sizes.z sizes.z rz,
            upper_bounds-ret b v,
            px.1,
            py.1,
            pz.1,
            from_lower_size-ret box valid,
          )
          refl,
      record {
        valid = valid;
        encloses = ((px.2.lower, px.2.upper), (py.2.lower, py.2.upper), (pz.2.lower, pz.2.upper));
        size_x = refl;
        size_y = refl;
        size_z = refl;
        aligned_x = px.2.aligned;
        aligned_y = py.2.aligned;
        aligned_z = pz.2.aligned;
        gravity = refl;
      },
    )
  where
    placed :
        (f : Bool) (g : Align) (l a s : ℤ)
        → InI32 l
        → InI32 a
        → IsAxis l a
        → (pos 0 ≤ℤ final_size f g a s) × (final_size f g a s ≤ℤ a)
        → (l' : ℤ) × (place g l (l +ℤ a) (final_size f g a s) ≡ ret l')
          × Shrinks g l a l' (final_size f g a s)
    placed f g l a s h k ax (nn, le) = place-Shrinks l a (final_size f g a s) h k ax nn le g

-- Shrinking a valid box to sizes that are not negative, and are below the largest `i32`, never panics.
-- The result lies in the box; on each axis it has the size that is asked for, one more if it is to be
-- centered symmetrically and the parities differ, but no more than there is; and it lies at the
-- lower or the upper end or in the middle, as the gravity says, with half a cube off at most.
pub shrink_to-IsShrunk :
    (grant : LayoutGrant) (sizes : GridVector) (f : Bool)
    → IsValid grant.bounds
    → (pos 0 ≤ℤ sizes.x) × (pos 0 ≤ℤ sizes.y) × (pos 0 ≤ℤ sizes.z)
    → InRange (add_vec sizes (vec (pos 1) (pos 1) (pos 1)))
    → (out : LayoutGrant) × (shrink_to grant sizes f ≡ ret out) × IsShrunk f grant sizes out
shrink_to-IsShrunk grant sizes f v (nx, ny, nz) (rx, ry, rz) =
    returns grant sizes f v (nx, ny, nz)
      (wanted_in f _ _ _ nx rx, wanted_in f _ _ _ ny ry, wanted_in f _ _ _ nz rz)

-- A box that is not smaller than the sizes is shrunk to a box that is not.
pub shrink_to-Fits :
    (grant : LayoutGrant) (sizes : GridVector) (f : Bool)
    → IsValid grant.bounds
    → IsNonneg sizes
    → Fits sizes grant.bounds.sizes
    → (out : LayoutGrant) × (shrink_to grant sizes f ≡ ret out)
      × (IsValid out.bounds × Encloses grant.bounds out.bounds × Fits sizes out.bounds.sizes)
shrink_to-Fits grant sizes f v n (fx, fy, fz) =
    let b = grant.bounds in
    let g = grant.gravity in
    let wx = wanted_le f g.x b.sizes.x sizes.x fx in
    let wy = wanted_le f g.y b.sizes.y sizes.y fy in
    let wz = wanted_le f g.z b.sizes.z sizes.z fz in
    let (out, e, r) = returns grant sizes f v n (
      in_range sizes.x (wanted f g.x b.sizes.x sizes.x) b.sizes.x n.0 wx v.sizes_in.0,
      in_range sizes.y (wanted f g.y b.sizes.y sizes.y) b.sizes.y n.1 wy v.sizes_in.1,
      in_range sizes.z (wanted f g.z b.sizes.z sizes.z) b.sizes.z n.2 wz v.sizes_in.2,
    ) in
    (
      out,
      e,
      (
        r.valid,
        r.encloses,
        (
          rw r.size_x (least sizes.x (wanted f g.x b.sizes.x sizes.x) b.sizes.x wx),
          rw r.size_y (least sizes.y (wanted f g.y b.sizes.y sizes.y) b.sizes.y wy),
          rw r.size_z (least sizes.z (wanted f g.z b.sizes.z sizes.z) b.sizes.z wz),
        ),
      ),
    )
  where
    in_range : (s w a : ℤ) → pos 0 ≤ℤ s → (s ≤ℤ w) × (w ≤ℤ a) → InI32 a → InI32 w
    in_range s w a n h k = (omega int_cases, omega int_cases)

    least : (s w a : ℤ) → (s ≤ℤ w) × (w ≤ℤ a) → s ≤ℤ min_ℤ w a
    least s w a h = ground arith
