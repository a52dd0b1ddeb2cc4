-- ===== src/Layout.antt =====
-- all-is-cubes-ui/src/vui/layout.rs: the boxes that widgets are given, and how a box is shrunk to a
-- size.
pub mod Insetting
pub mod Laying
pub mod Placing
pub mod Requiring
pub mod Sizing
pub mod Aligning
pub mod Shrinking
pub mod Slabs
pub mod Splitting
pub mod Tree
use all_is_cubes.Prelude.{
  ℕ, suc, ◌+◌, ◌/◌, ◌%◌, Bool, true, false, ◌&&◌, ◌||◌, not, Option, none, some, ◌==◌,
  if◌then◌else◌, List, [], ◌∷◌,
}
use all_is_cubes.Prelude.Run.{Run, ret, ◌>>=◌, ◌>>◌, assert, i32}
use all_is_cubes.Prelude.Int.{ℤ, pos, negsuc, ◌+ℤ◌, ◌-ℤ◌, ltb_ℤ, leb_ℤ, min_ℤ}
use all_is_cubes.Math.Vector.{Vector3, GridVector, GridPoint, Cube, vec}
use all_is_cubes.Math.GridAab.Iter
use all_is_cubes.Math.GridAab.{GridAab, upper_bounds, from_lower_size}

pub record LayoutRequest : Type 0 where
  pub minimum : GridVector

-- Where to position things on an axis.
pub data Align : Type 0 where
  low center high : Align

abbrev pub Gravity : Type 0
Gravity = Vector3 Align

pub record LayoutGrant : Type 0 where
  pub bounds : GridAab
  pub gravity : Gravity

-- `LayoutGrant::new`
unfoldable pub new : GridAab → LayoutGrant
new b = record { bounds = b; gravity = vec center center center }

abbrev pub is_center : Align → Bool
is_center low = false
is_center center = true
is_center high = false

-- `rem_euclid(2)`
abbrev pub parity : ℤ → ℕ
parity (pos n) = n % 2
parity (negsuc n) = (n + 1) % 2

-- Division by 2, towards zero.
abbrev pub halve : ℤ → ℤ
halve (pos n) = pos (n / 2)
halve (negsuc n) = pos 0 -ℤ pos ((n + 1) / 2)

-- One round of the first loop: the size on an axis.
unfoldable pub enlarge : Bool → Align → ℤ → ℤ → Run ℤ
enlarge for_symmetry gravity available size =
    if for_symmetry && is_center gravity && not (parity available == parity size)
    then i32 (size +ℤ pos 1)
    else ret size

-- One round of the second loop: the lower bound on an axis, between `l` and `h`.
unfoldable pub origin : Align → ℤ → ℤ → Run ℤ
origin low l h = ret l
origin center l h = do d ← i32 (h -ℤ l); i32 (l +ℤ halve d)
origin high l h = ret h

abbrev pub place : Align → ℤ → ℤ → ℤ → Run ℤ
place gravity l u size = i32 (u -ℤ size) >>= λ h. origin gravity l h

unfoldable pub shrink_to : LayoutGrant → GridVector → Bool → Run LayoutGrant
shrink_to grant sizes for_symmetry = do
  assert (leb_ℤ (pos 0) sizes.x && leb_ℤ (pos 0) sizes.y && leb_ℤ (pos 0) sizes.z)
  let available = grant.bounds.sizes
  let g = grant.gravity
  x ← enlarge for_symmetry g.x available.x sizes.x
  y ← enlarge for_symmetry g.y available.y sizes.y
  z ← enlarge for_symmetry g.z available.z sizes.z
  let clamped = vec (min_ℤ x available.x) (min_ℤ y available.y) (min_ℤ z available.z)
  upper ← upper_bounds grant.bounds
  let lower = grant.bounds.lower_bounds
  ox ← place g.x lower.x upper.x clamped.x
  oy ← place g.y lower.y upper.y clamped.y
  oz ← place g.z lower.z upper.z clamped.z
  bounds ← from_lower_size (vec ox oy oz) clamped
  ret (record { bounds = bounds; gravity = g })

-- The iterator is the one of Math.GridAab.Iter; `next` gives an item and the iterator after it.
unfoldable pub shrink_to_cube : LayoutGrant → Run (Option Cube)
shrink_to_cube grant = do
  shrunk ← shrink_to grant (vec (pos 1) (pos 1) (pos 1)) false
  iter ← Iter.new shrunk.bounds
  item ← Iter.next iter
  ret (item.0)
