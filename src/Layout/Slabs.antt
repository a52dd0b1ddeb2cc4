-- ===== src/Layout/Slabs.antt =====
-- `GridAab::abut` (all-is-cubes/src/math/grid_aab.rs) with a negative thickness, as the layout of a
-- stack (all-is-cubes-ui/src/vui/layout.rs) calls it.
use all_is_cubes.Prelude.{
  le→leb, ◌≡◌, refl, Bool-cases, ap, inl, inr, true, false, arith, if◌then◌else◌,
}
use all_is_cubes.Prelude.Run.{ret, ok, i32-ret, checked_i32-some}
use all_is_cubes.Prelude.Int.{ℤ, pos, ◌+ℤ◌, ◌-ℤ◌, ◌≤ℤ◌, InI32, int_cases, eq_of_parts, ltb_ℤ, leb_ℤ}
use all_is_cubes.Math.Vector.{vec, GridVector, InRange}
use all_is_cubes.Layout.{low, high}
use all_is_cubes.Layout.Shrinking.{Shrinks-IsValid}
use all_is_cubes.Layout.Aligning.{Shrinks, low-Shrinks, high-Shrinks}
use all_is_cubes.Math.Face.{Face6, nx, ny, nz, px, py, pz, opposite, axis_number, is_positive}
use all_is_cubes.Math.GridAab.{GridAab, component, set_component, checked_from_lower_size}
use all_is_cubes.Math.GridAab.Operations.{abut, clamp_thickness}
use all_is_cubes.Math.GridAab.Union.{Encloses}
use all_is_cubes.Math.GridAab.Volume.{IsValid, IsAxis, checked_from_lower_size_iff}
use all_is_cubes.Math.GridAab.Intersection.{upper_bounds-ret}

-- An abutting box of negative thickness is a part of the box at that face.
unfoldable pub slab : GridAab → Face6 → ℤ → GridAab
unfolding axis_number is_positive
slab b face k =
    let axis = axis_number face in
    let l = component b.lower_bounds axis in
    let s = component b.sizes axis in
    record {
      lower_bounds =
          set_component b.lower_bounds axis (if is_positive face then (l +ℤ s) -ℤ k else l);
      sizes = set_component b.sizes axis k;
    }

not_less : (a b : ℤ) → ltb_ℤ a b ≡ false → b ≤ℤ a
not_less a b h = ground arith

pub le→not_ltb : (a b : ℤ) → b ≤ℤ a → ltb_ℤ a b ≡ false
le→not_ltb a b h = ground arith

minus : (k : ℤ) → (pos 0 -ℤ (pos 0 -ℤ k)) ≡ k
minus k = eq_of_parts (pos 0 -ℤ (pos 0 -ℤ k)) k (omega int_cases)

clamp_thickness-ret :
    (k size : ℤ) → InI32 size → pos 0 ≤ℤ k → k ≤ℤ size → clamp_thickness (pos 0 -ℤ k) size ≡ ret k
clamp_thickness-ret k size h nn le =
    rw (i32-ret (pos 0 -ℤ size) (omega int_cases, omega int_cases), ordered)
      (elim (Bool-cases (ltb_ℤ (pos 0 -ℤ k) (pos 0))) [
        | inl e ↦ rw (e, minus k) (i32-ret k (omega int_cases, omega int_cases))
        | inr e ↦ rw e (
            ap ret
              (eq_of_parts (pos 0 -ℤ k) k (omega (int_cases, not_less (pos 0 -ℤ k) (pos 0) e))))
      ])
  where
    ordered : leb_ℤ (pos 0 -ℤ size) (pos 0 -ℤ k) ≡ true
    ordered = le→leb _ _ (omega int_cases)

not_outward : (k : ℤ) → pos 0 ≤ℤ k → ltb_ℤ (pos 0) (pos 0 -ℤ k) ≡ false
not_outward k nn = le→not_ltb (pos 0) (pos 0 -ℤ k) (omega int_cases)

back : (l k : ℤ) → (l -ℤ (pos 0 -ℤ k)) -ℤ k ≡ l
back l k = eq_of_parts ((l -ℤ (pos 0 -ℤ k)) -ℤ k) l (omega int_cases)

built : (b : GridAab) → IsValid b → checked_from_lower_size b.lower_bounds b.sizes ≡ ok b
built b v = (checked_from_lower_size_iff b.lower_bounds b.sizes b v.lower_in v.sizes_in).1 (refl, v)

pub abut-slab :
    (b : GridAab) (face : Face6) (k : ℤ)
    → IsValid b
    → IsValid (slab b face k)
    → pos 0 ≤ℤ k
    → k ≤ℤ component b.sizes (axis_number face)
    → abut b face (pos 0 -ℤ k) ≡ ret (ok (slab b face k))
unfolding abut axis_number is_positive slab
abut-slab b nx k v w nn le =
    rw
      (
        clamp_thickness-ret k b.sizes.x v.sizes_in.0 nn le,
        checked_i32-some (b.lower_bounds.x -ℤ (pos 0 -ℤ k)) (omega int_cases, omega int_cases),
        not_outward k nn,
        back b.lower_bounds.x k,
        i32-ret b.lower_bounds.x v.lower_in.0,
        built (slab b nx k) w,
      )
      refl
abut-slab b ny k v w nn le =
    rw
      (
        clamp_thickness-ret k b.sizes.y v.sizes_in.1 nn le,
        checked_i32-some (b.lower_bounds.y -ℤ (pos 0 -ℤ k)) (omega int_cases, omega int_cases),
        not_outward k nn,
        back b.lower_bounds.y k,
        i32-ret b.lower_bounds.y v.lower_in.1,
        built (slab b ny k) w,
      )
      refl
abut-slab b nz k v w nn le =
    rw
      (
        clamp_thickness-ret k b.sizes.z v.sizes_in.2 nn le,
        checked_i32-some (b.lower_bounds.z -ℤ (pos 0 -ℤ k)) (omega int_cases, omega int_cases),
        not_outward k nn,
        back b.lower_bounds.z k,
        i32-ret b.lower_bounds.z v.lower_in.2,
        built (slab b nz k) w,
      )
      refl
abut-slab b px k v w nn le =
    rw
      (
        clamp_thickness-ret k b.sizes.x v.sizes_in.0 nn le,
        upper_bounds-ret b v,
        not_outward k nn,
        i32-ret ((b.lower_bounds.x +ℤ b.sizes.x) -ℤ k) w.lower_in.0,
        built (slab b px k) w,
      )
      refl
abut-slab b py k v w nn le =
    rw
      (
        clamp_thickness-ret k b.sizes.y v.sizes_in.1 nn le,
        upper_bounds-ret b v,
        not_outward k nn,
        i32-ret ((b.lower_bounds.y +ℤ b.sizes.y) -ℤ k) w.lower_in.1,
        built (slab b py k) w,
      )
      refl
abut-slab b pz k v w nn le =
    rw
      (
        clamp_thickness-ret k b.sizes.z v.sizes_in.2 nn le,
        upper_bounds-ret b v,
        not_outward k nn,
        i32-ret ((b.lower_bounds.z +ℤ b.sizes.z) -ℤ k) w.lower_in.2,
        built (slab b pz k) w,
      )
      refl

whole : (l s : ℤ) → InI32 l → InI32 s → IsAxis l s → Shrinks low l s l s
whole l s h k ax = low-Shrinks l s s h k ax ax.0 (omega arith)

-- A cut of a valid box on one axis is valid.
pub slab-IsValid :
    (b : GridAab) (face : Face6) (k : ℤ)
    → IsValid b
    → pos 0 ≤ℤ k
    → k ≤ℤ component b.sizes (axis_number face)
    → IsValid (slab b face k)
unfolding axis_number is_positive slab
slab-IsValid b nx k v nn le =
    Shrinks-IsValid b (slab b nx k) (vec low low low) v (le, omega arith, omega arith)
      (low-Shrinks b.lower_bounds.x b.sizes.x k v.lower_in.0 v.sizes_in.0 v.x_axis nn le)
      (whole b.lower_bounds.y b.sizes.y v.lower_in.1 v.sizes_in.1 v.y_axis)
      (whole b.lower_bounds.z b.sizes.z v.lower_in.2 v.sizes_in.2 v.z_axis)
slab-IsValid b ny k v nn le =
    Shrinks-IsValid b (slab b ny k) (vec low low low) v (omega arith, le, omega arith)
      (whole b.lower_bounds.x b.sizes.x v.lower_in.0 v.sizes_in.0 v.x_axis)
      (low-Shrinks b.lower_bounds.y b.sizes.y k v.lower_in.1 v.sizes_in.1 v.y_axis nn le)
      (whole b.lower_bounds.z b.sizes.z v.lower_in.2 v.sizes_in.2 v.z_axis)
slab-IsValid b nz k v nn le =
    Shrinks-IsValid b (slab b nz k) (vec low low low) v (omega arith, omega arith, le)
      (whole b.lower_bounds.x b.sizes.x v.lower_in.0 v.sizes_in.0 v.x_axis)
      (whole b.lower_bounds.y b.sizes.y v.lower_in.1 v.sizes_in.1 v.y_axis)
      (low-Shrinks b.lower_bounds.z b.sizes.z k v.lower_in.2 v.sizes_in.2 v.z_axis nn le)
slab-IsValid b px k v nn le =
    Shrinks-IsValid b (slab b px k) (vec high low low) v (le, omega arith, omega arith)
      (high-Shrinks b.lower_bounds.x b.sizes.x k v.lower_in.0 v.sizes_in.0 v.x_axis nn le)
      (whole b.lower_bounds.y b.sizes.y v.lower_in.1 v.sizes_in.1 v.y_axis)
      (whole b.lower_bounds.z b.sizes.z v.lower_in.2 v.sizes_in.2 v.z_axis)
slab-IsValid b py k v nn le =
    Shrinks-IsValid b (slab b py k) (vec low high low) v (omega arith, le, omega arith)
      (whole b.lower_bounds.x b.sizes.x v.lower_in.0 v.sizes_in.0 v.x_axis)
      (high-Shrinks b.lower_bounds.y b.sizes.y k v.lower_in.1 v.sizes_in.1 v.y_axis nn le)
      (whole b.lower_bounds.z b.sizes.z v.lower_in.2 v.sizes_in.2 v.z_axis)
slab-IsValid b pz k v nn le =
    Shrinks-IsValid b (slab b pz k) (vec low low high) v (omega arith, omega arith, le)
      (whole b.lower_bounds.x b.sizes.x v.lower_in.0 v.sizes_in.0 v.x_axis)
      (whole b.lower_bounds.y b.sizes.y v.lower_in.1 v.sizes_in.1 v.y_axis)
      (high-Shrinks b.lower_bounds.z b.sizes.z k v.lower_in.2 v.sizes_in.2 v.z_axis nn le)

pub axis_number-opposite : (d : Face6) → axis_number (opposite d) ≡ axis_number d
unfolding axis_number opposite
axis_number-opposite nx = refl
axis_number-opposite ny = refl
axis_number-opposite nz = refl
axis_number-opposite px = refl
axis_number-opposite py = refl
axis_number-opposite pz = refl

pub component_in : (v : GridVector) (d : Face6) → InRange v → InI32 (component v (axis_number d))
unfolding axis_number
component_in v nx h = h.0
component_in v ny h = h.1
component_in v nz h = h.2
component_in v px h = h.0
component_in v py h = h.1
component_in v pz h = h.2

pub slab-Encloses :
    (b : GridAab) (face : Face6) (k : ℤ)
    → IsValid b
    → pos 0 ≤ℤ k
    → k ≤ℤ component b.sizes (axis_number face)
    → Encloses b (slab b face k)
unfolding axis_number is_positive slab
slab-Encloses b nx k v nn le = (
  (omega int_cases, omega int_cases),
  (omega int_cases, omega int_cases),
  (omega int_cases, omega int_cases),
)
slab-Encloses b ny k v nn le = (
  (omega int_cases, omega int_cases),
  (omega int_cases, omega int_cases),
  (omega int_cases, omega int_cases),
)
slab-Encloses b nz k v nn le = (
  (omega int_cases, omega int_cases),
  (omega int_cases, omega int_cases),
  (omega int_cases, omega int_cases),
)
slab-Encloses b px k v nn le = (
  (omega int_cases, omega int_cases),
  (omega int_cases, omega int_cases),
  (omega int_cases, omega int_cases),
)
slab-Encloses b py k v nn le = (
  (omega int_cases, omega int_cases),
  (omega int_cases, omega int_cases),
  (omega int_cases, omega int_cases),
)
slab-Encloses b pz k v nn le = (
  (omega int_cases, omega int_cases),
  (omega int_cases, omega int_cases),
  (omega int_cases, omega int_cases),
)
