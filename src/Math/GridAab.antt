-- ===== src/Math/GridAab.antt =====
-- all-is-cubes/src/math/grid_aab.rs: `GridAab`, a box of cubes with integer corners. A vector is
-- indexed by an axis number 0, 1 or 2. `usize` has 64 bits.
pub mod Operations
pub mod Volume
pub mod Index
pub mod Numbering
pub mod Intersection
pub mod Union
pub mod Iter
use all_is_cubes.Prelude.Run.{ret, ok, err, unwrap, expect, checked_i32, Run, Result}
use all_is_cubes.Prelude.{
  true, ◌^◌, false, ◌||◌, ◌%◌, none, ltb, ◌+◌, ◌*◌, suc, some, leb, if◌then◌else◌, ℕ, Option, Bool,
}
use all_is_cubes.Math.Face.Map.{FaceMap}
use all_is_cubes.Prelude.{zero, suc}
use all_is_cubes.Prelude.Run.{◌>>=◌}
use all_is_cubes.Prelude.Int.{
  ◌+ℤ◌, wrapping_sub, saturating_add, min_ℤ, max_ℤ, ltb_ℤ, eqb_ℤ, as_usize, as_u32, ℤ, pos, negsuc,
}
use all_is_cubes.Math.Vector.{sub, scale, add, Vector3, GridVector, GridPoint, Cube, vec}
use all_is_cubes.Math.Face
use all_is_cubes.Math.Face.{Face6}

pub record GridAab : Type 0 where
  pub lower_bounds : GridPoint
  pub sizes : GridVector

-- The messages of `GridOverflowError`.
pub data GridOverflowError : Type 0 where
  negative_size : ℕ → ℤ → GridOverflowError
  lower_bounds_too_large : ℕ → GridOverflowError
  volume_too_large : GridOverflowError
  abut_overflow : GridOverflowError

abbrev pub Fallible : Type 0
Fallible = Result GridOverflowError GridAab

-- `v[axis]`
abbrev pub component {ℓ} : {A : Type ℓ} → Vector3 A → ℕ → A
component v zero = v.x
component v (suc zero) = v.y
component v _ = v.z

abbrev pub set_component {ℓ} : {A : Type ℓ} → Vector3 A → ℕ → A → Vector3 A
set_component v zero a = record v { x = a }
set_component v (suc zero) a = record v { y = a }
set_component v _ a = record v { z = a }

-- `usize::try_from`, `usize::checked_mul`
abbrev pub usize_try_from : ℤ → Option ℕ
usize_try_from (pos n) = some n
usize_try_from (negsuc n) = none

unfoldable pub checked_mul : ℕ → ℕ → Option ℕ
checked_mul a b = if ltb (a * b) (2 ^ 64) then some (a * b) else none

abbrev pub then_mul : Option ℕ → ℤ → Option ℕ
then_mul none s = none
then_mul (some volume) s = elim (usize_try_from s) [ none ↦ none | some n ↦ checked_mul volume n ]

-- The loop over the three axes, with its accumulator.
unfoldable pub checked_volume_helper : GridVector → Option ℕ
unfolding checked_mul
checked_volume_helper sizes = then_mul (then_mul (then_mul (some 1) sizes.x) sizes.y) sizes.z

-- One round of the loop of `checked_from_lower_size`.
unfoldable pub check_axis : ℕ → ℤ → ℤ → Option GridOverflowError
unfolding checked_i32
check_axis i lower size =
    if ltb_ℤ size (pos 0) then some (negative_size i size) else elim (checked_i32 (lower +ℤ size)) [
      | none ↦ some (lower_bounds_too_large i)
      | some sum ↦ none
    ]

unfoldable pub checked_from_lower_size : GridPoint → GridVector → Fallible
checked_from_lower_size lower sizes = elim (check_axis 0 lower.x sizes.x) [
  | some e ↦ err e
  | none ↦ elim (check_axis 1 lower.y sizes.y) [
    | some e ↦ err e
    | none ↦ elim (check_axis 2 lower.z sizes.z) [
      | some e ↦ err e
      | none ↦ elim (checked_volume_helper sizes) [
        | none ↦ err volume_too_large
        | some volume ↦ ok (record { lower_bounds = lower; sizes = sizes })
      ]
    ]
  ]
]

unfoldable pub from_lower_size : GridPoint → GridVector → Run GridAab
unfolding checked_from_lower_size
from_lower_size lower sizes = expect (checked_from_lower_size lower sizes)

-- The subtraction is not checked by the error: it panics.
unfoldable pub checked_from_lower_upper : GridPoint → GridPoint → Run Fallible
unfolding checked_from_lower_size sub
checked_from_lower_upper lower upper = do
  sizes ← sub upper lower
  ret (checked_from_lower_size lower sizes)

unfoldable pub from_lower_upper : GridPoint → GridPoint → Run GridAab
unfolding from_lower_size sub
from_lower_upper lower upper = do sizes ← sub upper lower; from_lower_size lower sizes

-- `Cube::lower_bounds` is the identity on the fields; `grid_aab`, `upper_bounds`, `checked_add`.
unfoldable pub checked_add : Cube → GridVector → Option Cube
unfolding checked_i32
checked_add c v = elim (checked_i32 (c.x +ℤ v.x)) [
  | none ↦ none
  | some x ↦ elim (checked_i32 (c.y +ℤ v.y)) [
    | none ↦ none
    | some y ↦ elim (checked_i32 (c.z +ℤ v.z)) [ none ↦ none | some z ↦ some (vec x y z) ]
  ]
]

unfoldable pub cube_upper_bounds : Cube → Run GridPoint
unfolding checked_add
cube_upper_bounds c = unwrap (checked_add c (vec (pos 1) (pos 1) (pos 1)))

unfoldable pub single_cube : Cube → Run GridAab
unfolding from_lower_size
single_cube c = from_lower_size c (vec (pos 1) (pos 1) (pos 1))

-- The argument is `resolution.to_grid()`.
unfoldable pub for_block : ℤ → GridAab
for_block size = record { lower_bounds = vec (pos 0) (pos 0) (pos 0); sizes = vec size size size }

unfoldable pub volume : GridAab → Run ℕ
unfolding checked_volume_helper
volume b = unwrap (checked_volume_helper b.sizes)

unfoldable pub is_empty : GridAab → Bool
is_empty b = eqb_ℤ b.sizes.x (pos 0) || eqb_ℤ b.sizes.y (pos 0) || eqb_ℤ b.sizes.z (pos 0)

-- `usize` multiplication and addition that wrap.
abbrev pub wrapping_mul : ℕ → ℕ → ℕ
wrapping_mul a b = a * b % 2 ^ 64

abbrev pub wrapping_add : ℕ → ℕ → ℕ
wrapping_add a b = (a + b) % 2 ^ 64

-- `deoffsetted as u32 >= size as u32`
abbrev pub beyond : ℤ → ℤ → Bool
beyond d size = leb (as_u32 size) (as_u32 d)

unfoldable pub index_of : GridVector → GridVector → ℕ
index_of d sizes =
    wrapping_add
      (wrapping_mul (wrapping_add (wrapping_mul (as_usize d.x) (as_usize sizes.y)) (as_usize d.y))
        (as_usize sizes.z))
      (as_usize d.z)

unfoldable pub index : GridAab → Cube → Option ℕ
unfolding index_of
index b cube =
    let d =
      vec (wrapping_sub cube.x b.lower_bounds.x) (wrapping_sub cube.y b.lower_bounds.y)
        (wrapping_sub cube.z b.lower_bounds.z) in
    if beyond d.x b.sizes.x || beyond d.y b.sizes.y || beyond d.z b.sizes.z
    then none
    else some (index_of d b.sizes)

unfoldable pub upper_bounds : GridAab → Run GridPoint
unfolding add
upper_bounds b = add b.lower_bounds b.sizes

unfoldable pub unsigned_size : GridAab → Vector3 ℕ
unsigned_size b = vec (as_u32 b.sizes.x) (as_u32 b.sizes.y) (as_u32 b.sizes.z)

unfoldable pub axis_range : GridAab → ℕ → Run (ℤ × ℤ)
unfolding upper_bounds
axis_range b axis = do
  upper ← upper_bounds b
  ret (component b.lower_bounds axis, component upper axis)

unfoldable pub contains_cube : GridAab → Cube → Bool
unfolding index
contains_cube b cube = elim (index b cube) [ none ↦ false | some i ↦ true ]
