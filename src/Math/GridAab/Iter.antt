-- ===== src/Math/GridAab/Iter.antt =====
-- all-is-cubes/src/math/grid_aab.rs: `GridIter`, which visits the cubes of a box.
pub mod Order
pub mod Planes
pub mod Folding
pub mod Size
use all_is_cubes.Prelude.{
  ℕ, zero, suc, Bool, true, false, ◌&&◌, List, [], ◌∷◌, Option, none, some, if◌then◌else◌, ltb, ◌^◌,
  ◌*◌, ◌+◌,
}
use mathlib.Core.List.{foldl}
use all_is_cubes.Prelude.Run.{Run, ret, panic, i32, ◌>>=◌}
use all_is_cubes.Prelude.Int.{ℤ, pos, pos_part, ◌+ℤ◌, ◌-ℤ◌, leb_ℤ, ltb_ℤ, eqb_ℤ}
use all_is_cubes.Math.Vector.{GridPoint, Cube, vec}
use all_is_cubes.Math.GridAab.{GridAab, axis_range, is_empty, upper_bounds}

-- A range is its start and its end.
pub record GridIter : Type 0 where
  pub x_range : ℤ × ℤ
  pub y_range : ℤ × ℤ
  pub z_range : ℤ × ℤ
  pub cube : GridPoint

unfoldable pub new : GridAab → Run GridIter
unfolding axis_range is_empty upper_bounds
new bounds = do
  x ← axis_range bounds 0
  y ← axis_range bounds 1
  z ← axis_range bounds 2
  cube ← if is_empty bounds then upper_bounds bounds else ret bounds.lower_bounds
  ret (record { x_range = x; y_range = y; z_range = z; cube = cube })

abbrev pub moved_to : GridIter → Cube → Option Cube × GridIter
moved_to it cube = (some it.cube, record it { cube = cube })

-- The row has ended: on to the next one, or to the next plane.
unfoldable pub next_row : GridIter → Run (Option Cube × GridIter)
next_row it = i32 (it.cube.y +ℤ pos 1) >>= λ y.
    if leb_ℤ it.y_range.1 y
    then (i32 (it.cube.x +ℤ pos 1) >>= λ x. ret (moved_to it (vec x it.y_range.0 it.z_range.0)))
    else ret (moved_to it (vec it.cube.x y it.z_range.0))

unfoldable pub next : GridIter → Run (Option Cube × GridIter)
next it =
    if leb_ℤ it.x_range.1 it.cube.x
    then ret (none, it)
    else (i32 (it.cube.z +ℤ pos 1) >>= λ z.
        if leb_ℤ it.z_range.1 z then next_row it else ret (moved_to it (vec it.cube.x it.cube.y z)))

-- The numbers from `z` on, and those of the range `start..end`.
abbrev pub count_up : ℕ → ℤ → List ℤ
count_up zero z = []
count_up (suc n) z = z ∷ count_up n (z +ℤ pos 1)

abbrev pub range_list : ℤ × ℤ → List ℤ
range_list (start, end) = count_up (pos_part (end -ℤ start)) start

abbrev pub at_plane_start : GridIter → Bool
at_plane_start it = eqb_ℤ it.cube.y it.y_range.0 && eqb_ℤ it.cube.z it.z_range.0

-- A usize operation whose exact value is `n`.
unfoldable pub usize : ℕ → Run ℕ
usize n = if ltb n (2 ^ 64) then ret n else panic

-- `Range::len`
abbrev pub range_len : ℤ × ℤ → ℕ
range_len (start, end) = pos_part (end -ℤ start)

-- `usize::try_from`, and `unwrap`.
unfoldable pub unwrap_usize : ℤ → Run ℕ
unwrap_usize z = if ltb_ℤ z (pos 0) then panic else ret (pos_part z)

-- `usize::try_from` of the rows left gives 0 where there is none.
unfoldable pub cubes_remaining : GridIter → ℕ → Run ℕ
cubes_remaining it planes_remaining = do
  planes ← usize (planes_remaining * range_len it.y_range)
  y ← i32 (it.y_range.1 -ℤ it.cube.y)
  rows ← i32 (y -ℤ pos 1)
  rows_remaining ← usize (planes + pos_part rows)
  whole_rows ← usize (rows_remaining * range_len it.z_range)
  z ← i32 (it.z_range.1 -ℤ it.cube.z)
  row ← unwrap_usize z
  usize (whole_rows + row)

unfoldable pub size_hint : GridIter → Run (ℕ × Option ℕ)
size_hint it = do
  x ← i32 (it.x_range.1 -ℤ it.cube.x)
  planes ← i32 (x -ℤ pos 1)
  if ltb_ℤ planes (pos 0)
      then ret (0, some 0)
      else (cubes_remaining it (pos_part planes) >>= λ n. ret (n, some n))

module _ {B : Type 0} (f : B → Cube → B) where
  -- The loop over an iterator that is partly advanced: the state with the iterator at the start of a
  -- plane, or with none where the iterator has ended. Without fuel the answer is `none`.
  unfoldable pub advance : ℕ → GridIter → B → Run (Option (B × Option GridIter))
  advance zero it state = ret none
  advance (suc fuel) it state = elim (at_plane_start it) [
    | true ↦ ret (some (state, some it))
    | false ↦ next it >>= λ r. elim (r.0) [
      | none ↦ ret (some (state, none))
      | some cube ↦ advance fuel r.1 (f state cube)
    ]
  ]

  -- The loops over the ranges of the coordinates.
  unfoldable pub fold_row : ℤ → ℤ → List ℤ → B → B
  fold_row x y zs state = foldl (λ s z. f s (vec x y z)) state zs

  unfoldable pub fold_plane : ℤ → List ℤ → List ℤ → B → B
  unfolding fold_row
  fold_plane x ys zs state = foldl (λ s y. fold_row x y zs s) state ys

  unfoldable pub fold_planes : List ℤ → List ℤ → List ℤ → B → B
  unfolding fold_plane
  fold_planes xs ys zs state = foldl (λ s x. fold_plane x ys zs s) state xs

  unfoldable pub fold : ℕ → GridIter → B → Run (Option B)
  unfolding advance fold_planes
  fold fuel it init = advance fuel it init >>= λ r. elim r [
    | none ↦ ret none
    | some (state, rest) ↦ elim rest [
      | none ↦ ret (some state)
      | some it' ↦ ret (
          some (
            fold_planes (range_list (it'.cube.x, it'.x_range.1)) (range_list it'.y_range)
              (range_list it'.z_range) state))
    ]
  ]
