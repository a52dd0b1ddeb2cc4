-- ===== src/Math/GridAab/Operations.antt =====
-- all-is-cubes/src/math/grid_aab.rs: the operations on `GridAab` that combine and move boxes.
use all_is_cubes.Prelude.Run.{assert, ◌>>◌, ret, i32, err, checked_i32, Run}
use all_is_cubes.Prelude.{◌/◌, true, false, ◌||◌, none, some, if◌then◌else◌, ℕ, Option, Bool}
use all_is_cubes.Math.Face.Map.{FaceMap}
use all_is_cubes.Prelude.Run.{◌>>◌, ◌>>=◌}
use all_is_cubes.Prelude.Int.{
  pos_part, ◌-ℤ◌, leb_ℤ, ◌+ℤ◌, saturating_add, min_ℤ, max_ℤ, ltb_ℤ, ℤ, pos, negsuc,
}
use all_is_cubes.Math.Vector.{run_vec, sub, scale, add, GridVector, GridPoint, vec}
use all_is_cubes.Math.Face
use all_is_cubes.Math.Face.{Face6}
use all_is_cubes.Math.GridAab.{
  abut_overflow, set_component, component, Fallible, ret, from_lower_upper, from_lower_size,
  checked_from_lower_size, GridAab, upper_bounds,
}

-- The three rounds of the loop of `contains_box`.
abbrev pub axis_escapes : ℤ → ℤ → ℤ → ℤ → Bool
axis_escapes other_lower self_lower other_upper self_upper =
    ltb_ℤ other_lower self_lower || ltb_ℤ self_upper other_upper

unfoldable pub contains_box : GridAab → GridAab → Run Bool
unfolding upper_bounds
contains_box b other = do
  self_upper ← upper_bounds b
  other_upper ← upper_bounds other
  let l = b.lower_bounds
  let m = other.lower_bounds
  ret (
      if axis_escapes m.x l.x other_upper.x self_upper.x
      then false
      else if axis_escapes m.y l.y other_upper.y self_upper.y
      then false
      else if axis_escapes m.z l.z other_upper.z self_upper.z
      then false
      else true)

abbrev pub zip_with : (ℤ → ℤ → ℤ) → GridPoint → GridPoint → GridPoint
zip_with f p q = vec (f p.x q.x) (f p.y q.y) (f p.z q.z)

unfoldable pub intersection : GridAab → GridAab → Run (Option GridAab)
unfolding upper_bounds from_lower_upper
intersection b other = do
  let lower = zip_with max_ℤ b.lower_bounds other.lower_bounds
  u ← upper_bounds b
  v ← upper_bounds other
  let upper = zip_with min_ℤ u v
  if leb_ℤ upper.x lower.x || leb_ℤ upper.y lower.y || leb_ℤ upper.z lower.z
      then ret none
      else do r ← from_lower_upper lower upper; ret (some r)

unfoldable pub union : GridAab → GridAab → Run Fallible
unfolding upper_bounds checked_from_lower_size sub
union b other = do
  let lower = zip_with min_ℤ b.lower_bounds other.lower_bounds
  u ← upper_bounds b
  v ← upper_bounds other
  let upper = zip_with max_ℤ u v
  sizes ← sub upper lower
  ret (checked_from_lower_size lower sizes)

unfoldable pub minkowski_sum : GridAab → GridAab → Run Fallible
unfolding checked_from_lower_size add
minkowski_sum b other = do
  lower ← add b.lower_bounds other.lower_bounds
  sizes ← add b.sizes other.sizes
  ret (checked_from_lower_size lower sizes)

unfoldable pub translate : GridAab → GridVector → Run GridAab
unfolding upper_bounds from_lower_upper
translate b offset = do
  let new_lb = zip_with saturating_add b.lower_bounds offset
  u ← upper_bounds b
  let new_ub = zip_with saturating_add u offset
  from_lower_upper new_lb new_ub

unfoldable pub multiply : GridAab → ℤ → Run GridAab
unfolding scale from_lower_size
multiply b k = do
  lower ← scale b.lower_bounds k
  sizes ← scale b.sizes k
  from_lower_size lower sizes

unfoldable pub expand : GridAab → FaceMap ℤ → Run GridAab
unfolding upper_bounds from_lower_upper
expand b deltas = do
  u ← upper_bounds b
  let l = b.lower_bounds
  lower ← run_vec (vec (l.x -ℤ deltas.nx) (l.y -ℤ deltas.ny) (l.z -ℤ deltas.nz))
  upper ← run_vec (vec (u.x +ℤ deltas.px) (u.y +ℤ deltas.py) (u.z +ℤ deltas.pz))
  from_lower_upper lower upper

-- `i32::div_euclid` by a positive divisor.
abbrev pub div_euclid : ℤ → ℕ → ℤ
div_euclid (pos n) d = pos (n / d)
div_euclid (negsuc n) d = negsuc (n / d)

-- `(upper + divisor - 1).div_euclid(divisor)`
abbrev round_up : ℤ → ℤ → Run ℤ
round_up upper divisor = do
  a ← i32 (upper +ℤ divisor)
  c ← i32 (a -ℤ pos 1)
  ret (div_euclid c (pos_part divisor))

-- The divisor is a positive number; any other fails the assertion.
unfoldable pub divide : GridAab → ℤ → Run GridAab
unfolding upper_bounds from_lower_upper i32
divide b divisor = do
  assert (ltb_ℤ (pos 0) divisor)
  let d = pos_part divisor
  u ← upper_bounds b
  let l = b.lower_bounds
  ux ← round_up u.x divisor
  uy ← round_up u.y divisor
  uz ← round_up u.z divisor
  from_lower_upper (vec (div_euclid l.x d) (div_euclid l.y d) (div_euclid l.z d)) (vec ux uy uz)

-- `thickness.max(-size[axis]).abs()`
abbrev pub clamp_thickness : ℤ → ℤ → Run ℤ
clamp_thickness thickness size = do
  least ← i32 (pos 0 -ℤ size)
  let t = max_ℤ thickness least
  if ltb_ℤ t (pos 0) then i32 (pos 0 -ℤ t) else ret t

abbrev pub shared_coordinate : GridAab → Face6 → ℤ → Run (Option ℤ)
shared_coordinate b face thickness =
    if Face.is_positive face
    then (upper_bounds b >>= λ u. ret (some (component u (Face.axis_number face))))
    else ret (checked_i32 (component b.lower_bounds (Face.axis_number face) -ℤ thickness))

unfoldable pub abut : GridAab → Face6 → ℤ → Run Fallible
unfolding upper_bounds checked_from_lower_size i32 Face.is_positive Face.axis_number
abut b face thickness = do
  let axis = Face.axis_number face
  side ← clamp_thickness thickness (component b.sizes axis)
  let size = set_component b.sizes axis side
  shared ← shared_coordinate b face thickness
  elim shared [
    | none ↦ ret (err abut_overflow)
    | some coordinate ↦ do
      new_lower ← if ltb_ℤ (pos 0) thickness then ret coordinate else i32 (coordinate -ℤ side)
      ret (checked_from_lower_size (set_component b.lower_bounds axis new_lower) size)
  ]
